-- ===== src/Schedule/RepoIndex.antt =====
-- pkg/repoindex/payload.go: the task of the repo-index queue.
use codeintel.Base.{
  Bool, true, false, not, ◌&&◌, ◌||◌, Option, none, some, Text, codes, text_eq, Result, ok, err,
  if◌then◌else◌,
}
use codeintel.Status.{job_type_remove_index}
use codeintel.Base.Int.{ℤ, pos, leb_ℤ}

abbrev pub job_type_index : Text
job_type_index = codes "INDEX"

abbrev pub job_type_cleanup : Text
job_type_cleanup = codes "CLEANUP"

unfoldable pub is_valid_type : Text → Bool
is_valid_type t =
    text_eq t job_type_index || text_eq t job_type_cleanup || text_eq t job_type_remove_index

pub record TaskPayload : Type 0 where
  pub kind : Text
  pub job_id : Text
  pub repo_id : ℤ
  pub org_id : ℤ
  pub repo_name : Text
  pub ref : Text

pub data TaskError : Type 0 where
  invalid_job_type missing_org_id malformed : TaskError

-- `encoding/json` on these payloads; `none` is an error.
pub record TaskJson : Type 0 where
  pub encode : TaskPayload → Text
  pub decode : Text → Option TaskPayload

unfoldable pub marshal_task : TaskJson → TaskPayload → Result TaskError Text
unfolding is_valid_type
marshal_task json p =
    if not (is_valid_type p.kind)
    then err invalid_job_type
    else if leb_ℤ p.org_id (pos 0)
    then err missing_org_id
    else ok (json.encode p)

unfoldable pub unmarshal_either : TaskJson → Text → Bool → Result TaskError TaskPayload
unfolding is_valid_type
unmarshal_either json raw allow_missing_org_id = elim (json.decode raw) [
  | none ↦ err malformed
  | some p ↦
      if not (is_valid_type p.kind)
      then err invalid_job_type
      else if leb_ℤ p.org_id (pos 0) && not allow_missing_org_id
      then err missing_org_id
      else ok p
]

unfoldable pub unmarshal_task : TaskJson → Text → Result TaskError TaskPayload
unfolding unmarshal_either
unmarshal_task json raw = unmarshal_either json raw false

unfoldable pub unmarshal_legacy_for_backfill : TaskJson → Text → Result TaskError TaskPayload
unfolding unmarshal_either
unmarshal_legacy_for_backfill json raw = unmarshal_either json raw true
