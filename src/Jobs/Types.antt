-- ===== src/Jobs/Types.antt =====
-- `normalizeJobType` (src/modules/jobs/job-contract.js).
use moventra_tms.Base.{
  ◌≡◌, Bool, true, ◌&&◌, ◌||◌, not, [], arith, refl, if◌then◌else◌, ltb, leb, length, Result, ok,
  err,
}
use moventra_tms.Base.Json.{Text, Json, str, codes}
use moventra_tms.Base.Text.{to_lower_case, trim, text_eq}
use moventra_tms.Base.Text.Laws.{text_eq_refl}
use moventra_tms.Base.Text.Dotted.{
  is_dotted, is_dotted-stable, is_dotted-lower, starts_with, is_system_dotted,
  is_system_dotted_of_dotted,
}

-- MVT_JOB_TYPE_INVALID
pub data TypeError : Type 0 where
  job_type_invalid : TypeError

-- `typeof value === 'string' ? value.trim().toLowerCase() : ''`
unfoldable pub lowered : Json → Text
lowered (str s) = to_lower_case (trim s)
lowered _ = []

unfoldable pub normalize_job_type : Json → Result TypeError Text
unfolding lowered
normalize_job_type value =
    let type = lowered value in
    if ltb (length type) 3 || ltb 160 (length type) || not (is_dotted type)
    then err job_type_invalid
    else ok type

-- The CHECK constraint ck_jobs_jobs_type of db/migrations/0016_jobs.sql.
unfoldable pub type_ok : Text → Bool
unfolding text_eq
type_ok type =
    text_eq type (to_lower_case type)
    && leb 3 (length type)
    && leb (length type) 160
    && is_dotted type

-- The CHECK constraint ck_jobs_system_jobs_type of the same file.
unfoldable pub system_type_ok : Text → Bool
unfolding text_eq
system_type_ok type =
    text_eq type (to_lower_case type)
    && leb 3 (length type)
    && leb (length type) 160
    && is_system_dotted type

-- A normalised job type is its own normal form and meets the constraint of jobs.jobs on types, and
-- that of jobs.system_jobs exactly if it starts with `system.`: other
-- normalised types the table of system jobs refuses.
pub normalize_job_type-stable :
    (value : Json) {type : Text}
    → normalize_job_type value ≡ ok type
    → (normalize_job_type (str type) ≡ ok type)
      × (type_ok type ≡ true)
      × (system_type_ok type ≡ starts_with (codes "system.") type)
unfolding normalize_job_type type_ok system_type_ok
normalize_job_type-stable value {type} e =
    let dotted : is_dotted type ≡ true = ground arith in
    let long : leb 3 (length type) ≡ true = ground arith in
    let short : leb (length type) 160 ≡ true = ground arith in
    let lower : text_eq type (to_lower_case type) ≡ true =
      rw (is_dotted-lower type dotted) (text_eq_refl type) in
    (
      ground (arith, is_dotted-stable type),
      rw (lower, long, short, dotted) refl,
      rw (lower, long, short) (is_system_dotted_of_dotted type dotted),
    )
