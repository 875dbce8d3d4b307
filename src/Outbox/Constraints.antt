-- ===== src/Outbox/Constraints.antt =====
-- The CHECK constraints of outbox.events that tie claims, attempts and publication together.
use moventra_tms.Base.{ℕ, ◌≡◌, refl, Bool, true, ◌∷◌, [], arith, All, All-append}
use moventra_tms.Base.Sql.{Unique, All-update}
use moventra_tms.Base.Members.{All-update-In}
use moventra_tms.Base.Batch.Laws.{is_selected-eligible}
use moventra_tms.Outbox.{
  Event, Events, event_id, Append, appended, append, is_claimable, comes_before, claimed,
  claim_batch, holds_claim, published, mark_published, claim_pair, attempt_lifecycle,
  published_not_claimed,
}

-- A claim has its time, an event that was never attempted holds no claim, and neither does one that
-- is published.
abbrev pub IsConsistent : Event → Type 0
IsConsistent e =
    (claim_pair e ≡ true) × (attempt_lifecycle e ≡ true) × (published_not_claimed e ≡ true)

appended-IsConsistent : (id now : ℕ) (a : Append) → IsConsistent (appended id now a)
unfolding appended claim_pair attempt_lifecycle published_not_claimed
appended-IsConsistent id now a = (refl, refl, refl)

claimed-IsConsistent :
    (ttl_ms token now : ℕ) (locked : ℕ → Bool) (e : Event)
    → is_claimable ttl_ms locked now e ≡ true
    → IsConsistent (claimed token now e)
unfolding claimed claim_pair attempt_lifecycle published_not_claimed is_claimable
claimed-IsConsistent ttl_ms token now locked e h = (ground arith, ground arith, ground arith)

published-IsConsistent :
    (token now : ℕ) (e : Event)
    → holds_claim token e ≡ true
    → IsConsistent e
    → IsConsistent (published now e)
unfolding published claim_pair attempt_lifecycle published_not_claimed holds_claim
published-IsConsistent token now e h c = (ground arith, ground arith, ground arith)

-- In a table with unique ids, append, claimBatch and markPublished keep the constraints on claims,
-- attempts and publication of all events.
pub statements_keep_constraints :
    (t : Events)
    → Unique event_id t
    → All IsConsistent t
    → ((id now : ℕ) (a : Append) → All IsConsistent (append id now a t).0)
      × ((limit ttl_ms token : ℕ) (locked : ℕ → Bool) (now : ℕ)
          → All IsConsistent (claim_batch limit ttl_ms token locked now t).0)
      × ((id token now : ℕ) → All IsConsistent (mark_published id token now t).0)
unfolding append claim_batch mark_published
statements_keep_constraints t keyed all = (
  λ id now a.
      All-append IsConsistent t (appended id now a ∷ []) all (appended-IsConsistent id now a, tt),
  λ limit ttl_ms token locked now.
      All-update-In IsConsistent _ (claimed token now) t
        (λ e m taken c.
          claimed-IsConsistent ttl_ms token now locked e
            (is_selected-eligible event_id comes_before (is_claimable ttl_ms locked now) limit t
              keyed e m taken).1)
        all,
  λ id token now.
      All-update IsConsistent _ (published now) t
        (λ e hit c. published-IsConsistent token now e (ground arith) c) all,
)
