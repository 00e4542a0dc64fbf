-- ===== src/Service/Notifying.antt =====
-- When the apply task of a server can send its reply, and when it blocks: src/kvraft/server.go,
-- src/shardctrler/server.go and src/shardkv/task.go.
use multi_raft.Common.{
  ℕ, ◌<◌, ◌≡◌, refl, ◌⊎◌, inl, inr, Bool, true, false, none, some, List, [], ◌∷◌, arith, lookup,
  nat_key, string_key, Option-cases, length, get_elem?, set, length-append, length-set,
  get_elem?-below, get_elem?-append_right, get_elem?-set_self, lookup-put_self, lookup-put_ne,
}
use multi_raft.Service.Channels.{Channels, get_notify_channel, send, notify, Waits}

module _ {R : Type 0} where
  -- Every channel in the table exists.
  abbrev pub IsPlaced : Channels R → Type 0
  IsPlaced c = (i ch : ℕ) → lookup c.notify_chans i ≡ some ch → ch < length c.chans

  -- The channel of an index holds a reply that nobody has taken.
  abbrev pub IsFull : Channels R → ℕ → Type 0
  IsFull c index =
      (ch : ℕ) × (old : R) × (rest : List R) × (lookup c.notify_chans index ≡ some ch)
      × (get_elem? c.chans ch ≡ some (old ∷ rest))

  -- The index has no channel, or an empty one.
  abbrev pub IsFree : Channels R → ℕ → Type 0
  IsFree c index = (ch : ℕ) → lookup c.notify_chans index ≡ some ch → get_elem? c.chans ch ≡ some []

  IsFree-or_IsFull : (c : Channels R) (index : ℕ) → IsPlaced c → IsFree c index ⊎ IsFull c index
  IsFree-or_IsFull c index p = elim (Option-cases (lookup c.notify_chans index)) [
    | inl e ↦ inl (λ ch h. absurd (ground arith))
    | inr (ch, e) ↦
        let (buffer, held) = get_elem?-below c.chans ch (p index ch e) in go ch e buffer held
  ]
    where
      go :
          (ch : ℕ)
          → lookup c.notify_chans index ≡ some ch
          → (buffer : List R) → get_elem? c.chans ch ≡ some buffer
          → IsFree c index ⊎ IsFull c index
      go ch e [] held = inl (λ d h. ground arith)
      go ch e (old ∷ rest) held = inr (ch, old, rest, e, held)

  get_notify_channel-IsPlaced :
      (c : Channels R) (index : ℕ)
      → IsPlaced c
      → IsPlaced (get_notify_channel c index).0
        × (lookup (get_notify_channel c index).0.notify_chans index
            ≡ some (get_notify_channel c index).1)
        × (IsFree c index
            → get_elem? (get_notify_channel c index).0.chans (get_notify_channel c index).1
              ≡ some [])
  unfolding get_notify_channel
  get_notify_channel-IsPlaced c index p = elim (Option-cases (lookup c.notify_chans index)) [
    | inr (ch, e) ↦ rw (e, get_notify_channel) (p, e, λ free. free ch refl)
    | inl e ↦
        rw (e, get_notify_channel)
          (
            λ i ch h. ground (
              arith,
              p i ch,
              length-append c.chans ([] ∷ []),
              lookup-put_self c.notify_chans index (length c.chans),
              lookup-put_ne c.notify_chans index i (length c.chans),
            ),
            lookup-put_self c.notify_chans index (length c.chans),
            λ free. ground (arith, get_elem?-append_right c.chans ([] ∷ []) (length c.chans)),
          )
  ]

  -- A send where this peer leads blocks exactly where the channel of the index is full.
  abbrev pub Notifies : Channels R → Bool → ℕ → R → Type 0
  Notifies c leads index reply =
      (leads ≡ true) × IsFull c index × (notify c leads index reply ≡ none)
      ⊎ (leads ≡ true → IsFree c index)
        × ((c' : Channels R) × (notify c leads index reply ≡ some c')
            × IsPlaced c'
            × Waits c' leads index reply)

  pub notify_lem :
      (c : Channels R) (leads : Bool) (index : ℕ) (reply : R)
      → IsPlaced c
      → Notifies c leads index reply
  unfolding notify send
  notify_lem c false index reply p = inr (λ l. absurd (cc), (c, refl, p, λ l. absurd (cc)))
  notify_lem c true index reply p =
      let (p', found, empty) = get_notify_channel-IsPlaced c index p in
      let got = get_notify_channel c index in
      elim (IsFree-or_IsFull c index p) [
        | inl free ↦
            let c' : Channels R = record got.0 { chans = set got.0.chans got.1 (reply ∷ []) } in
            inr (
              λ l. free,
              (
                c',
                ground (arith, empty free),
                λ i ch h. ground (arith, p' i ch h, length-set got.0.chans got.1 (reply ∷ [])),
                λ l. (
                  got.1,
                  found,
                  get_elem?-set_self got.0.chans got.1 (reply ∷ []) (p' index got.1 found),
                ),
              ),
            )
        | inr (ch, old, rest, e, held) ↦
            inl
              (refl, (ch, old, rest, e, held), unfold get_notify_channel in ground (arith, e, held))
      ]
