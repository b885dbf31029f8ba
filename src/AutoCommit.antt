-- ===== src/AutoCommit.antt =====
-- src/ccc_storage_mountd/workers/auto_commit.py: a tick of the worker, and a poke, over the children of the
-- service, in the order of their ids. The service is a state with the call that commits a child, and
-- with what makes a child's upper and what the scan of it gives. The reload of the
-- registry and the sort come before.
use ccc_storage.Base.{
  not, String, ◌≡◌, refl, inl, inr, Bool, true, false, List, [], ◌∷◌, Result, raised, ok, lock_held,
  if◌then◌else◌, Bool-cases,
}
use ccc_storage.Base.Text.{is_empty}
use ccc_storage.Base.Action.{go_on}
use ccc_storage.Manifest.{ChildManifest}
use ccc_storage.CommitPolicy.{
  Clock, CommitPolicy, PolicyInputs, Decision, trigger, manual, noop, evaluate,
}

abbrev pub is_trigger : Decision → Bool
is_trigger trigger = true
is_trigger manual = false
is_trigger noop = false

pub record TickResult : Type 0 where
  pub decisions : List (String × Decision)
  pub committed : List String
  pub skipped : List String

-- `locked`: the answer has the key `skipped`.
pub record PokeResult : Type 0 where
  pub id : String
  pub decision : Decision
  pub committed : Bool
  pub locked : Bool

-- What a tick over one child reports, from the answer of a poke.
abbrev pub as_tick : PokeResult → TickResult
as_tick r = record {
  decisions = (r.id, r.decision) ∷ [];
  committed = if r.committed then r.id ∷ [] else [];
  skipped = if r.locked then r.id ∷ [] else [];
}

abbrev tick_of_poke :
    {Service : Type 0} → Service × Result {0} PokeResult → Service × Result {0} TickResult
tick_of_poke (s, ok r) = (s, ok (as_tick r))
tick_of_poke (s, raised e) = (s, raised e)

module _ (clock : Clock) (Service : Type 0)
    (handle_commit : String → Service → Service × Result {0} Unit)
    (ensure_active_upper : ChildManifest → Service → Service)
    (overlay_inputs : Service → ChildManifest → PolicyInputs clock)
    (policy : CommitPolicy clock) where
  -- `manifest.commit_mode or "auto"`
  abbrev pub child_policy : ChildManifest → CommitPolicy clock
  child_policy m = record policy { mode = if is_empty m.commit_mode then "auto" else m.commit_mode }

  abbrev pub evaluate_child : Service → ChildManifest → Decision
  evaluate_child s m = evaluate clock (child_policy m) (overlay_inputs s m)

  -- `_commit`: a lock that is held is no error.
  abbrev pub committed_or_locked : Service × Result {0} Unit → Service × Result Bool
  committed_or_locked (s, ok done) = (s, ok true)
  committed_or_locked (s, raised lock_held) = (s, ok false)
  committed_or_locked (s, raised e) = (s, raised e)

  -- The body of the loop for a child, and the rest of the loop.
  abbrev pub note : ChildManifest → Decision → TickResult → TickResult
  note m decision t = record t { decisions = (m.id, decision) ∷ t.decisions }

  abbrev pub note_commit : ChildManifest → Bool → TickResult → TickResult
  note_commit m true t = record t { committed = m.id ∷ t.committed }
  note_commit m false t = record t { skipped = m.id ∷ t.skipped }

  unfoldable pub tick : List ChildManifest → Service → Service × Result TickResult
  tick [] s = (s, ok (record { decisions = []; committed = []; skipped = [] }))
  tick (m ∷ rest) s =
      let ready = ensure_active_upper m s in
      let decision = evaluate_child ready m in
      elim (is_trigger decision) [
        | false ↦ go_on (tick rest ready) (λ t u. (u, ok (note m decision t)))
        | true ↦
            go_on (committed_or_locked (handle_commit m.id ready)) (λ won v.
              go_on (tick rest v) (λ t u. (u, ok (note m decision (note_commit m won t)))))
      ]

  -- `poke`: the child that the selector finds.
  unfoldable pub poke : ChildManifest → Service → Service × Result PokeResult
  poke m s =
      let ready = ensure_active_upper m s in
      let decision = evaluate_child ready m in
      elim (is_trigger decision) [
        | false ↦ (
          ready,
          ok (record { id = m.id; decision = decision; committed = false; locked = false }),
        )
        | true ↦ go_on (committed_or_locked (handle_commit m.id ready)) (λ won v.
            (v, ok (record { id = m.id; decision = decision; committed = won; locked = not won })))
      ]

  poke_committed :
      (m : ChildManifest) (d : Decision) (r : Service × Result {0} Bool)
      → go_on r (λ won v. go_on (tick [] v) (λ t u. (u, ok (note m d (note_commit m won t)))))
        ≡ tick_of_poke (
            go_on r (λ won v.
              (v, ok (record { id = m.id; decision = d; committed = won; locked = not won }))))
  unfolding tick
  poke_committed m d (s, ok true) = refl
  poke_committed m d (s, ok false) = refl
  poke_committed m d (s, raised e) = refl

  -- A tick over one child leaves the service as a poke of that child does, raises what it raises, and
  -- reports the same decision and the same commit or skip.
  tick-poke : (m : ChildManifest) (s : Service) → tick (m ∷ []) s ≡ tick_of_poke (poke m s)
  unfolding tick poke
  tick-poke m s = elim (Bool-cases (is_trigger (evaluate_child (ensure_active_upper m s) m))) [
    | inr e ↦ rw (tick, poke, e) refl
    | inl e ↦
        rw (tick, poke, e)
          (poke_committed m (evaluate_child (ensure_active_upper m s) m)
            (committed_or_locked (handle_commit m.id (ensure_active_upper m s))))
  ]
