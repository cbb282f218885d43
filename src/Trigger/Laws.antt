-- ===== src/Trigger/Laws.antt =====
-- What the operations of agent/triggers.c do to the list of triggers and to the heap.
use empower_enb_agent.Base.{
  ℕ, suc, ◌+◌, ◌-◌, ◌≤◌, ◌≡◌, refl, inl, inr, Bool, Option, Option-cases, none, some, List, [], ◌∷◌,
  ◌++◌, append_assoc, arith, if◌then◌else◌,
}
use empower_enb_agent.Emlist.{Emlist}
use empower_enb_agent.Memory.{Mem, msg_blocks}
use empower_enb_agent.Trigger.{
  Trigger, TrigCtx, has_id, has_inst, trig_alloc, trig_free, find_first, deleted, trig_del_by_id,
  trig_del_by_inst, del_first, trig_flush, flush_loop,
}

-- The blocks that a trigger holds, and a list of them.
abbrev pub trig_blocks : Trigger → ℕ
trig_blocks t = suc (msg_blocks t.msg)

abbrev pub all_blocks : List Trigger → ℕ
all_blocks [] = 0
all_blocks (t ∷ ts) = trig_blocks t + all_blocks ts

-- The blocks of a trigger that may be there.
abbrev pub new_blocks : Option Trigger → ℕ
new_blocks none = 0
new_blocks (some t) = trig_blocks t

-- The first entry that passes a test, taken out.
abbrev pub without_first : (Trigger → Bool) → List Trigger → List Trigger
without_first test [] = []
without_first test (t ∷ ts) = if test t then ts else t ∷ without_first test ts

pub trig_free-live : (t : Trigger) (m : Mem) → (trig_free t m).live ≡ m.live - trig_blocks t
unfolding trig_free
trig_free-live t m = ground arith

module _ (L : Emlist) where
  -- The walk that deletes frees the entry that a search finds, and unlinks just it.
  pub del_first_lem :
      (test : Trigger → Bool) (before ts : List Trigger) (m : Mem)
      → del_first L test before ts m ≡ elim (find_first test ts) [
        | none ↦ none
        | some t ↦ some (before ++ without_first test ts, trig_free t m)
      ]
  unfolding del_first find_first
  del_first_lem test before [] m = refl
  del_first_lem test before (t ∷ ts) m = ground (
    arith,
    L.list_del_unlinks before t ts,
    del_first_lem test (before ++ t ∷ []) ts m,
    append_assoc before (t ∷ []) (without_first test ts),
  )

  pub flush_loop_lem :
      (ts : List Trigger) (m : Mem)
      → ((flush_loop L ts ts m).0 ≡ []) × ((flush_loop L ts ts m).1.live ≡ m.live - all_blocks ts)
  unfolding flush_loop
  flush_loop_lem [] m = (refl, omega arith)
  flush_loop_lem (t ∷ ts) m =
      ground
        (arith, L.list_del_unlinks [] t ts, flush_loop_lem ts (trig_free t m), trig_free-live t m)

  pub trig_flush_lem :
      (ctx : TrigCtx) (m : Mem)
      → ((trig_flush L ctx m).0 ≡ record ctx { ts = [] })
        × ((trig_flush L ctx m).1.live ≡ m.live - all_blocks ctx.ts)
  unfolding trig_flush
  trig_flush_lem ctx m = ground (arith, flush_loop_lem ctx.ts m)

without_first-blocks :
    (test : Trigger → Bool) (ts : List Trigger) (t : Trigger)
    → find_first test ts ≡ some t
    → all_blocks ts ≡ trig_blocks t + all_blocks (without_first test ts)
unfolding find_first
without_first-blocks test [] t e = cc
without_first-blocks test (u ∷ ts) t e = ground (arith, without_first-blocks test ts t)

pub trig_alloc-live :
    (ok : ℕ → Bool) (m : Mem) (a b c : ℕ) (msg : Option (List ℕ)) (size : ℕ)
    → let r = trig_alloc ok m a b c msg size in r.0.live ≡ m.live + new_blocks r.1
unfolding trig_alloc
trig_alloc-live ok m a b c none size = ground arith
trig_alloc-live ok m a b c (some bytes) size = ground arith

module _ (L : Emlist) where
  -- A deletion gives back the blocks of what it takes out of the list.
  deleted-live :
      (test : Trigger → Bool) (ctx : TrigCtx) (m : Mem)
      → all_blocks ctx.ts ≤ m.live
      → let r = deleted L ctx m (del_first L test [] ctx.ts m) in
        r.1.live + all_blocks ctx.ts ≡ m.live + all_blocks r.0.ts
  unfolding deleted
  deleted-live test ctx m fits = elim (Option-cases (find_first test ctx.ts)) [
    | inl e ↦ rw (del_first_lem L test [] ctx.ts m, e) (omega arith)
    | inr (t, e) ↦
        rw (del_first_lem L test [] ctx.ts m, e)
          (omega (arith, without_first-blocks test ctx.ts t e, trig_free-live t m))
  ]

  pub trig_del_by_id-live :
      (ctx : TrigCtx) (m : Mem) (id : ℕ)
      → all_blocks ctx.ts ≤ m.live
      → let r = trig_del_by_id L ctx m id in
        r.1.live + all_blocks ctx.ts ≡ m.live + all_blocks r.0.ts
  unfolding trig_del_by_id
  trig_del_by_id-live ctx m id fits = deleted-live (has_id id) ctx m fits

  pub trig_del_by_inst-live :
      (ctx : TrigCtx) (m : Mem) (a b c : ℕ)
      → all_blocks ctx.ts ≤ m.live
      → let r = trig_del_by_inst L ctx m a b c in
        r.1.live + all_blocks ctx.ts ≡ m.live + all_blocks r.0.ts
  unfolding trig_del_by_inst
  trig_del_by_inst-live ctx m a b c fits = deleted-live (has_inst a b c) ctx m fits
