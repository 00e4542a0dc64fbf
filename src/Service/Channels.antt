-- ===== src/Service/Channels.antt =====
-- The notify channels of a server, which src/kvraft/server.go, src/shardctrler/server.go and
-- src/shardkv/server.go have in the same words.
use multi_raft.Common.{
  ℕ, ◌≤◌, ◌<◌, ◌≡◌, refl, inl, inr, Bool, true, false, Option, none, some, List, [], ◌∷◌, ◌++◌,
  arith, lookup, put, delete, nat_key, string_key, ltb, if◌then◌else◌, Option-cases, ◌>>=◌, length,
  get_elem?, set, length-append, length-set, get_elem?-append_left, get_elem?-append_right,
  get_elem?-set_self, get_elem?-set_ne, Map, lookup-put_self, lookup-put_ne, lookup-delete_self,
  lookup-delete_ne,
}

-- `chans` are the channels made so far, each with what it buffers; `notify_chans` holds their
-- positions.
pub record Channels (R : Type 0) : Type 0 where
  pub notify_chans : Map ℕ ℕ
  pub chans : List (List R)

module _ {R : Type 0} where
  abbrev pub no_channels : Channels R
  no_channels = record { notify_chans = []; chans = [] }

  -- The channel of an index, made where there is none.
  unfoldable pub get_notify_channel : Channels R → ℕ → Channels R × ℕ
  get_notify_channel c index = elim (lookup c.notify_chans index) [
    | some ch ↦ (c, ch)
    | none ↦ (
      record {
        notify_chans = put c.notify_chans index (length c.chans);
        chans = c.chans ++ ([] ∷ []);
      },
      length c.chans,
    )
  ]

  unfoldable pub remove_notify_channel : Channels R → ℕ → Channels R
  remove_notify_channel c index = record c { notify_chans = delete c.notify_chans index }

  -- `notifyCh <- opReply` on a channel that buffers one value; `none` where it blocks.
  unfoldable pub send : Channels R → ℕ → R → Option (Channels R)
  send c ch reply = get_elem? c.chans ch >>= λ buffer.
      if ltb (length buffer) 1
      then some (record c { chans = set c.chans ch (buffer ++ (reply ∷ [])) })
      else none

  -- The `select`: the reply `late` where the time is out, and else what the channel holds; `none`
  -- while it is empty.
  unfoldable pub receive : Channels R → ℕ → R → Bool → Channels R × Option R
  receive c ch late true = (c, some late)
  receive c ch late false = elim (get_elem? c.chans ch) [
    | some (reply ∷ rest) ↦ (record c { chans = set c.chans ch rest }, some reply)
    | _ ↦ (c, none)
  ]

  -- The apply task sends its reply where its peer leads.
  unfoldable pub notify : Channels R → Bool → ℕ → R → Option (Channels R)
  notify c leads index reply =
      let subscribed = get_notify_channel c index in
      if leads then send subscribed.0 subscribed.1 reply else some c

  -- Every channel in the table exists and belongs to one index; those of the indexes behind `last`
  -- are empty.
  pub record OpenFrom (last : ℕ) (c : Channels R) : Type 0 where
    pub placed : (i ch : ℕ) → lookup c.notify_chans i ≡ some ch → ch < length c.chans
    pub apart :
        (i j ch : ℕ) → lookup c.notify_chans i ≡ some ch → lookup c.notify_chans j ≡ some ch → i ≡ j
    pub empty :
        (i ch : ℕ) → last < i → lookup c.notify_chans i ≡ some ch → get_elem? c.chans ch ≡ some []

  pub no_channels-OpenFrom : (last : ℕ) → OpenFrom last no_channels
  unfolding lookup
  no_channels-OpenFrom last = record {
    placed = λ i ch h. absurd (cc);
    apart = λ i j ch h h'. absurd (cc);
    empty = λ i ch lt h. absurd (cc);
  }

  -- A new empty channel at an index that had none.
  make_channel-OpenFrom :
      (last : ℕ) (c : Channels R) (index : ℕ)
      → lookup c.notify_chans index ≡ none
      → OpenFrom last c
      → OpenFrom last (record {
        notify_chans = put c.notify_chans index (length c.chans);
        chans = c.chans ++ ([] ∷ []);
      })
  make_channel-OpenFrom last c index new o = record {
    placed = λ i ch h. ground (
      arith,
      o.placed i ch,
      length-append c.chans ([] ∷ []),
      lookup-put_self c.notify_chans index (length c.chans),
      lookup-put_ne c.notify_chans index i (length c.chans),
    );
    apart = λ i j ch h h'. ground (
      arith,
      o.apart i j ch,
      o.placed i ch,
      o.placed j ch,
      lookup-put_self c.notify_chans index (length c.chans),
      lookup-put_ne c.notify_chans index i (length c.chans),
      lookup-put_ne c.notify_chans index j (length c.chans),
    );
    empty = λ i ch lt h. ground (
      arith,
      o.empty i ch,
      o.placed i ch,
      lookup-put_self c.notify_chans index (length c.chans),
      lookup-put_ne c.notify_chans index i (length c.chans),
      get_elem?-append_left c.chans ([] ∷ []) ch,
      get_elem?-append_right c.chans ([] ∷ []) ch,
    );
  }

  pub get_notify_channel_lem :
      (last : ℕ) (c : Channels R) (index : ℕ)
      → OpenFrom last c
      → OpenFrom last (get_notify_channel c index).0
        × (lookup (get_notify_channel c index).0.notify_chans index
            ≡ some (get_notify_channel c index).1)
  unfolding get_notify_channel
  get_notify_channel_lem last c index o = elim (Option-cases (lookup c.notify_chans index)) [
    | inr (ch, e) ↦ rw (e, get_notify_channel) (o, e)
    | inl e ↦
        rw (e, get_notify_channel)
          (
            make_channel-OpenFrom last c index e o,
            lookup-put_self c.notify_chans index (length c.chans),
          )
  ]

  pub remove_notify_channel-OpenFrom :
      (last : ℕ) (c : Channels R) (index : ℕ)
      → OpenFrom last c
      → OpenFrom last (remove_notify_channel c index)
  unfolding remove_notify_channel
  remove_notify_channel-OpenFrom last c index o =
      let left : (i ch : ℕ)
          → lookup (delete c.notify_chans index) i ≡ some ch
          → lookup c.notify_chans i ≡ some ch =
        λ i ch h. ground (
          arith,
          lookup-delete_self c.notify_chans index,
          lookup-delete_ne c.notify_chans index i,
        ) in
      record {
        placed = λ i ch h. o.placed i ch (left i ch h);
        apart = λ i j ch h h'. o.apart i j ch (left i ch h) (left j ch h');
        empty = λ i ch lt h. o.empty i ch lt (left i ch h);
      }

  take_one-OpenFrom :
      (last : ℕ) (c : Channels R) (ch : ℕ) (reply : R) (rest : List R)
      → get_elem? c.chans ch ≡ some (reply ∷ rest)
      → OpenFrom last c
      → OpenFrom last (record c { chans = set c.chans ch rest })
  take_one-OpenFrom last c ch reply rest full o = record {
    placed = λ i d h. ground (arith, o.placed i d, length-set c.chans ch rest);
    apart = o.apart;
    empty = λ i d lt h. ground (arith, o.empty i d, get_elem?-set_ne c.chans ch d rest);
  }

  pub receive-OpenFrom :
      (last : ℕ) (c : Channels R) (ch : ℕ) (late : R) (timed_out : Bool)
      → OpenFrom last c
      → OpenFrom last (receive c ch late timed_out).0
  unfolding receive
  receive-OpenFrom last c ch late true o = o
  receive-OpenFrom last c ch late false o = go (get_elem? c.chans ch) refl
    where
      go :
          (buffer : Option (List R))
          → get_elem? c.chans ch ≡ buffer
          → OpenFrom last (receive c ch late false).0
      go none e = rw (e, receive) o
      go (some []) e = rw (e, receive) o
      go (some (reply ∷ rest)) e = rw (e, receive) (take_one-OpenFrom last c ch reply rest e o)

  send-OpenFrom :
      (last : ℕ) (c : Channels R) (ch : ℕ) (reply : R) (index : ℕ)
      → OpenFrom last c
      → last < index
      → lookup c.notify_chans index ≡ some ch
      → (c' : Channels R) × (send c ch reply ≡ some c')
        × OpenFrom index c'
        × (lookup c'.notify_chans index ≡ some ch)
        × (get_elem? c'.chans ch ≡ some (reply ∷ []))
  unfolding send
  send-OpenFrom last c ch reply index o lt h = (
    record c { chans = set c.chans ch (reply ∷ []) },
    ground (arith, o.empty index ch),
    record {
      placed = λ i d h'. ground (arith, o.placed i d, length-set c.chans ch (reply ∷ []));
      apart = o.apart;
      empty = λ i d lt' h'.
          ground
            (arith, o.empty i d, o.apart i index d, get_elem?-set_ne c.chans ch d (reply ∷ []));
    },
    h,
    get_elem?-set_self c.chans ch (reply ∷ []) (o.placed index ch h),
  )

  pub raise-OpenFrom :
      (last index : ℕ) (c : Channels R) → OpenFrom last c → last ≤ index → OpenFrom index c
  raise-OpenFrom last index c o le = record {
    placed = o.placed;
    apart = o.apart;
    empty = λ i ch lt h. o.empty i ch (omega arith) h;
  }

  -- Where the peer leads, the reply to an index waits in its channel.
  abbrev pub Waits : Channels R → Bool → ℕ → R → Type 0
  Waits c leads index reply =
      leads ≡ true
      → (ch : ℕ) × (lookup c.notify_chans index ≡ some ch)
        × (get_elem? c.chans ch ≡ some (reply ∷ []))

  pub notify-total :
      (last : ℕ) (c : Channels R) (leads : Bool) (index : ℕ) (reply : R)
      → OpenFrom last c
      → last < index
      → (c' : Channels R) × (notify c leads index reply ≡ some c')
        × OpenFrom index c'
        × Waits c' leads index reply
  unfolding notify
  notify-total last c false index reply o lt =
      (c, refl, raise-OpenFrom last index c o (omega arith), λ leads. absurd (cc))
  notify-total last c true index reply o lt =
      let (o', found) = get_notify_channel_lem last c index o in
      let got = get_notify_channel c index in
      let (c', sent, o'', at_index, held) =
        send-OpenFrom last got.0 got.1 reply index o' lt found in
      (c', sent, o'', λ _. (got.1, at_index, held))
