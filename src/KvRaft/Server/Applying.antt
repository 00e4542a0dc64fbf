-- ===== src/KvRaft/Server/Applying.antt =====
-- `applyTask` of src/kvraft/server.go on the commands that the peer hands it.
use mathlib.Core.Path.{subst}
use multi_raft.Common.{
  sym, none, ℕ, ◌+◌, ◌≤◌, ◌<◌, ◌≡◌, refl, ap, ◌∙◌, ◌⊎◌, inl, inr, true, Option, some, List, [], ◌∷◌,
  arith, nat_key, string_key, leb, Bool-cases, ◌>>=◌, length,
}
use multi_raft.KvRaft.Server.{KvServer, make_snapshot, needs_snapshot, apply_command, apply_message}
use multi_raft.KvRaft.Server.Duplicates.{run, exactly_once}
use multi_raft.KvRaft.StateMachine.{
  Op, OpReply, StateMachine, DuplicateTable, apply_to_state_machine, kv_service,
}
use multi_raft.Raft.Application.{ApplyMsg, command_msg}
use multi_raft.Raft.Log.{Bytes}
use multi_raft.Raft.Peer.{Item, Raft, get_state}
use multi_raft.Raft.Step.Invariant.{Inv}
use multi_raft.Service.Channels.{Channels, notify, OpenFrom, Waits, notify-total}
use multi_raft.Service.Duplicates.{execute, execute_all, first_only, execute-total}
use multi_raft.Service.Notifying.{IsPlaced, IsFull, IsFree, notify_lem}
use multi_raft.Service.Snapshots.{snapshot-total}

-- A server between two messages.
pub record IsReady (kv : KvServer) : Type 0 where
  pub opened : OpenFrom kv.last_applied kv.notices
  pub saved : Inv kv.rf

-- A server whose peer has its storage up to date, and whose table names only channels that exist.
pub record IsSound (kv : KvServer) : Type 0 where
  pub saved : Inv kv.rf
  pub placed : IsPlaced kv.notices

module _ (encode : StateMachine → DuplicateTable → Bytes)
    (decode : Bytes → Option (StateMachine × DuplicateTable))
    (raft_state_size : List (Item Op) → ℕ) where
  make_snapshot-total :
      (kv : KvServer) (index : ℕ)
      → Inv kv.rf
      → (rf : Raft Op) × (make_snapshot encode decode raft_state_size kv index
          ≡ some (record kv { rf = rf }))
        × Inv rf
  unfolding make_snapshot
  make_snapshot-total kv index saved =
      let (rf, done, taken) =
        snapshot-total kv.rf index (encode kv.state_machine kv.duplicate_table) saved in
      (rf, ground arith, taken.0)

  -- What a new command leaves, where its reply is sent.
  abbrev Leaves : ℕ → StateMachine → DuplicateTable → Channels OpReply → KvServer → Type 0
  Leaves index m table notices kv' =
      Inv kv'.rf
      × (kv'.last_applied ≡ index)
      × (kv'.state_machine ≡ m)
      × (kv'.duplicate_table ≡ table)
      × (kv'.notices ≡ notices)

  -- A command goes through where its reply is sent, and blocks where the send blocks.
  apply_command-lem :
      (kv : KvServer) (index : ℕ) (op : Op) (m : StateMachine) (table : DuplicateTable)
      (reply : OpReply)
      → Inv kv.rf
      → execute kv_service kv.state_machine kv.duplicate_table op ≡ some (m, table, reply)
      → (notify kv.notices (get_state kv.rf).1 index reply ≡ none
          → apply_command encode decode raft_state_size kv index op ≡ none)
        × ((notices : Channels OpReply)
            → notify kv.notices (get_state kv.rf).1 index reply ≡ some notices
            → (kv' : KvServer) × (apply_command encode decode raft_state_size kv index op
                ≡ some kv')
              × Leaves index m table notices kv')
  unfolding apply_command
  apply_command-lem kv index op m table reply saved executed = (
    λ blocks. ground (arith, executed, blocks),
    λ notices sent.
        let kv₁ : KvServer = record kv {
          last_applied = index;
          state_machine = m;
          duplicate_table = table;
          notices = notices;
        } in
        let (rf, snapped, saved') = make_snapshot-total kv₁ index saved in
        elim (Bool-cases (needs_snapshot encode decode raft_state_size kv₁)) [
          | inl full ↦ (
            record kv₁ { rf = rf },
            ground (arith, executed, sent, snapped),
            (saved', refl, refl, refl, refl),
          )
          | inr small ↦ (kv₁, ground (arith, executed, sent), (saved, refl, refl, refl, refl))
        ],
  )

  -- The server has executed the command, and where this peer leads, the reply waits in the channel
  -- of the index.
  abbrev pub Executed : KvServer → ℕ → Op → KvServer → Type 0
  Executed kv index op kv' =
      IsSound kv'
      × (kv'.last_applied ≡ index)
      × ((reply : OpReply) × (execute kv_service kv.state_machine kv.duplicate_table op
            ≡ some (kv'.state_machine, kv'.duplicate_table, reply))
          × Waits kv'.notices (get_state kv.rf).1 index reply)

  abbrev pub Handles : KvServer → Op → ℕ → Type 0
  Handles kv op index =
      let out = apply_message encode decode raft_state_size kv (command_msg true (some op) index) in
      (index ≤ kv.last_applied) × (out ≡ some kv)
      ⊎ (kv.last_applied < index)
        × ((get_state kv.rf).1 ≡ true)
        × IsFull kv.notices index
        × (out ≡ none)
      ⊎ (kv.last_applied < index)
        × ((get_state kv.rf).1 ≡ true → IsFree kv.notices index)
        × ((kv' : KvServer) × (out ≡ some kv') × Executed kv index op kv')

  -- What `applyTask` does with a command, on a server whose peer has its storage up to date and whose
  -- table names only channels that exist. One at or below the last index applied changes nothing. A
  -- new one is executed on state machine and table, counts as applied, and has its reply waiting in
  -- the channel of its index where this peer leads; the server stays such a server. The one exception
  -- is a peer that leads while the channel of the index still holds a reply: there the send blocks,
  -- with the lock held.
  pub apply_message_lem : (kv : KvServer) (op : Op) (index : ℕ) → IsSound kv → Handles kv op index
  unfolding apply_message
  apply_message_lem kv op index sound = elim (Bool-cases (leb index kv.last_applied)) [
    | inl old ↦ inl (ground arith, ground arith)
    | inr new ↦
        let ((m, table, reply), executed) =
          execute-total kv_service kv.state_machine kv.duplicate_table op
            (apply_to_state_machine kv.state_machine op, refl) in
        let (stuck, goes) = apply_command-lem kv index op m table reply sound.saved executed in
        elim (notify_lem kv.notices (get_state kv.rf).1 index reply sound.placed) [
          | inl (leads, full, blocks) ↦
              inr (inl (ground arith, leads, full, ground (arith, stuck blocks)))
          | inr (free, (notices, sent, placed, waits)) ↦
              let (kv', done, (saved, at_index, same_m, same_table, same)) = goes notices sent in
              let sound' : IsSound kv' = record {
                saved = saved;
                placed = subst IsPlaced (sym same) placed;
              } in
              let held = subst (λ c. Waits c (get_state kv.rf).1 index reply) (sym same) waits in
              let executed' : execute kv_service kv.state_machine kv.duplicate_table op
                  ≡ some (kv'.state_machine, kv'.duplicate_table, reply) =
                ground (arith, executed, same_m, same_table) in
              inr (
                inr (
                  ground arith,
                  free,
                  (kv', ground (arith, done), (sound', at_index, (reply, executed', held))),
                ))
        ]
  ]

  apply_new-total :
      (kv : KvServer) (index : ℕ) (op : Op)
      → IsReady kv
      → kv.last_applied < index
      → (kv' : KvServer) × (apply_message encode decode raft_state_size kv
            (command_msg true (some op) index)
          ≡ some kv')
        × IsReady kv'
        × (kv'.last_applied ≡ index)
        × ((reply : OpReply) × (execute kv_service kv.state_machine kv.duplicate_table op
              ≡ some (kv'.state_machine, kv'.duplicate_table, reply)))
  unfolding apply_message
  apply_new-total kv index op ready lt =
      let ((m, table, reply), executed) =
        execute-total kv_service kv.state_machine kv.duplicate_table op
          (apply_to_state_machine kv.state_machine op, refl) in
      let (notices, sent, opened, _) =
        notify-total kv.last_applied kv.notices (get_state kv.rf).1 index reply ready.opened lt in
      let (_, goes) = apply_command-lem kv index op m table reply ready.saved executed in
      let (kv', done, (saved, at_index, same_m, same_table, same)) = goes notices sent in
      let open' = subst (OpenFrom index) (sym same) opened in
      let ready' : IsReady kv' = record {
        opened = subst (λ i. OpenFrom i kv'.notices) (sym at_index) open';
        saved = saved;
      } in
      (
        kv',
        ground (arith, done),
        ready',
        at_index,
        (reply, ground (arith, executed, same_m, same_table)),
      )

  -- All messages, in order.
  unfoldable pub apply_messages : KvServer → List (ApplyMsg Op) → Option KvServer
  apply_messages kv [] = some kv
  apply_messages kv (m ∷ ms) =
      apply_message encode decode raft_state_size kv m >>= λ kv'. apply_messages kv' ms

  abbrev pub messages_of : ℕ → List Op → List (ApplyMsg Op)
  messages_of last [] = []
  messages_of last (op ∷ ops) = command_msg true (some op) (last + 1) ∷ messages_of (last + 1) ops

  apply_messages-total :
      (kv : KvServer) (ops : List Op)
      → IsReady kv
      → (kv' : KvServer) × (apply_messages kv (messages_of kv.last_applied ops) ≡ some kv')
        × IsReady kv'
        × (execute_all kv_service kv.state_machine kv.duplicate_table ops
            ≡ some (kv'.state_machine, kv'.duplicate_table))
        × (kv'.last_applied ≡ kv.last_applied + length ops)
  unfolding apply_messages execute_all
  apply_messages-total kv [] ready = (kv, refl, ready, refl, omega arith)
  apply_messages-total kv (op ∷ ops) ready =
      let (kv₁, done, ready₁, at_index, (reply, executed)) =
        apply_new-total kv (kv.last_applied + 1) op ready (omega arith) in
      let (kv₂, all, ready₂, same, far) = apply_messages-total kv₁ ops ready₁ in
      (
        kv₂,
        ap (λ m. m >>= λ k. apply_messages k (messages_of (kv.last_applied + 1) ops)) done
            ∙ subst (λ n. apply_messages kv₁ (messages_of n ops) ≡ some kv₂) at_index all,
        ready₂,
        ground (arith, executed, same),
        omega (arith, far, at_index),
      )

  abbrev pub AppliesLog : KvServer → List Op → Type 0
  AppliesLog kv ops =
      (kv' : KvServer) × (apply_messages kv (messages_of kv.last_applied ops) ≡ some kv')
      × IsReady kv'
      × (kv'.state_machine ≡ run [] (first_only kv_service [] ops))
      × (kv'.last_applied ≡ kv.last_applied + length ops)

  -- A server that has applied nothing takes the commands of a log in order, without a panic and
  -- without blocking, and ends with the state machine that the reads and the first write of each
  -- client with a new number give by themselves; all of the log counts as applied.
  pub apply_messages_lem :
      (kv : KvServer) (ops : List Op)
      → IsReady kv
      → kv.state_machine ≡ []
      → kv.duplicate_table ≡ []
      → AppliesLog kv ops
  apply_messages_lem kv ops ready no_data no_table =
      let (kv', done, ready', same, far) = apply_messages-total kv ops ready in
      (kv', done, ready', ground (arith, same, no_data, no_table, exactly_once [] ops), far)
