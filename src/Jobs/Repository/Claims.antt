-- ===== src/Jobs/Repository/Claims.antt =====
-- The claim of a batch of jobs: which rows it takes, how many, and in which order.
use moventra_tms.Base.{ℕ, ◌≤◌, ◌≡◌, refl, Bool, true, false, List, map, arith, contains, length}
use moventra_tms.Base.Sql.{Unique}
use moventra_tms.Base.Members.{In}
use moventra_tms.Base.Batch.Laws.{
  is_selected-eligible, contains-claimed, claim-le-limit, claim-precedes,
}
use moventra_tms.Jobs.Row.{Row, Table, row_id}
use moventra_tms.Jobs.Repository.{is_eligible, precedes, is_selected, leased, claim_batch}

precedes_asym : (a b : Row) → precedes a b ≡ true → precedes b a ≡ false
unfolding precedes
precedes_asym a b h = ground arith

precedes_trans : (a b c : Row) → precedes b a ≡ false → precedes c b ≡ false → precedes c a ≡ false
unfolding precedes
precedes_trans a b c h k = ground arith

module _ (limit lease_ms lease_token : ℕ) (locked : ℕ → Bool) (now : ℕ) (t : Table) where
  -- A row of the table is taken only if it is eligible.
  pub is_selected-is_eligible :
      (r : Row)
      → Unique row_id t
      → In r t
      → is_selected limit locked now t r ≡ true
      → is_eligible locked now r ≡ true
  is_selected-is_eligible r u m e =
      (is_selected-eligible row_id precedes (is_eligible locked now) limit t u r m e).1

  abbrev pub claimed_ids : List ℕ
  claimed_ids = map row_id (claim_batch limit lease_ms lease_token locked now t).1

  pub contains-claimed_ids :
      (r : Row)
      → Unique row_id t
      → In r t
      → contains claimed_ids r.id ≡ is_selected limit locked now t r
  unfolding claim_batch
  contains-claimed_ids r u m =
      contains-claimed row_id precedes (is_eligible locked now) limit t u
        (leased lease_ms lease_token now) (λ s. refl) r m

  -- A claim takes no more jobs than asked for.
  pub claim_batch-le-limit :
      Unique row_id t → length (claim_batch limit lease_ms lease_token locked now t).1 ≤ limit
  unfolding claim_batch
  claim_batch-le-limit u =
      claim-le-limit row_id precedes (is_eligible locked now) limit t u
        (leased lease_ms lease_token now) (λ s. refl)

  -- In a table with unique ids, an eligible job that a claim leaves stands before none that it
  -- takes, in the order by priority (the highest first), available_at, created_at and id.
  pub claim_batch-precedes :
      (c e : Row)
      → Unique row_id t
      → In c t
      → In e t
      → contains claimed_ids c.id ≡ true
      → contains claimed_ids e.id ≡ false
      → is_eligible locked now e ≡ true
      → precedes e c ≡ false
  unfolding claim_batch
  claim_batch-precedes c e u m n taken left fits =
      claim-precedes row_id precedes (is_eligible locked now) limit t u
        (leased lease_ms lease_token now) (λ s. refl) precedes_asym precedes_trans c e m n taken
        left fits
