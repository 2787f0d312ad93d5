-- ===== src/Schedule/Tests.antt =====
-- Requests for a repository with one connection.
use mathlib.Core.List.{mem-cons_self}
use codeintel.Base.{
  ◌≡◌, refl, true, false, none, some, [], ◌∷◌, All, codes, text_eq, has_prefix, trim_prefix,
  trim_space, trim_right, trim_left, trim_left_from, space_width, is_blank, contains_string,
  dedup_from, ok, err, exists_in, find_first, insert_by, sort_by,
}
use codeintel.Base.Int.{pos}
use codeintel.Leases.{done, refused}
use codeintel.Schedule.{
  in_progress, IndexJob, Tables, Fate, enqueue_error, job_already_active, connection_not_found,
  scheduler_ref_candidates,
}
use codeintel.Schedule.RepoIndex.{TaskJson, is_valid_type, marshal_task, job_type_index}
use codeintel.Schedule.Index.{
  RepoScheduleRequest, schedule_repo_index, is_schedulable, for_repo, insert_and_send,
  insert_pending_repo_index_job, existing_job, is_rival, refs_meet, with_job, answer_insert,
  send_index_task, answer_enqueue, is_pending_job,
}
use codeintel.Schedule.Sync.{schedule_connection_sync}
use codeintel.Schedule.Exclusive.{IsExclusive, schedule-IsExclusive}
use codeintel.Schedule.Twice.{racing_requests_doubled}
use codeintel.Schedule.Outcomes.{Delivered, failed_request_settled, answered_request-Delivered}

abbrev running_job : IndexJob
running_job = record {
  id = codes "old";
  repo_id = pos 2;
  kind = job_type_index;
  status = in_progress;
  ref = some (codes "refs/heads/main");
  error_message = none;
  completed_at = none;
  created_at = some 1;
  updated_at = 1;
}

abbrev tables : Tables
tables = record {
  repos = record { id = pos 2; org_id = pos 1; name = codes "r" } ∷ [];
  connections = record { id = pos 3; org_id = pos 1; name = codes "c" } ∷ [];
  links = record { repo_id = pos 2; connection_id = pos 3 } ∷ [];
  index_jobs = running_job ∷ [];
  sync_jobs = [];
  queued = [];
}

abbrev good_fate : Fate
good_fate = record {
  loading = true;
  snapshot = running_job ∷ [];
  inserting = done;
  enqueueing = done;
  marking = done;
  job_id = codes "new";
  now = 5;
  cause = codes "redis";
}

abbrev no_queue : Fate
no_queue = record good_fate { enqueueing = refused }

abbrev request : RepoScheduleRequest
request = record { org_id = pos 1; repo_id = pos 2; kind = job_type_index; ref = codes "dev" }

abbrev main_request : RepoScheduleRequest
main_request = record request { ref = codes "main" }

abbrev blank_json : TaskJson
blank_json = record { encode = λ _. codes "p"; decode = λ _. none }

both_names : scheduler_ref_candidates (codes " main ") ≡ codes "main" ∷ codes "refs/heads/main" ∷ []
unfolding scheduler_ref_candidates trim_space trim_right trim_left trim_left_from space_width
    is_blank trim_prefix has_prefix dedup_from contains_string text_eq
both_names = refl

answered : (schedule_repo_index blank_json true good_fate request tables).1 ≡ ok (codes "new")
unfolding schedule_repo_index is_valid_type is_schedulable find_first exists_in for_repo
    insert_and_send insert_pending_repo_index_job existing_job is_rival refs_meet sort_by
    answer_insert with_job send_index_task marshal_task answer_enqueue scheduler_ref_candidates
    trim_space trim_right trim_left trim_left_from space_width is_blank trim_prefix has_prefix
    dedup_from contains_string text_eq
answered = refl

-- `main` is `refs/heads/main`.
refused_twice :
    (schedule_repo_index blank_json true good_fate main_request tables).1
    ≡ err (job_already_active (codes "old") job_type_index in_progress)
unfolding schedule_repo_index is_valid_type is_schedulable find_first exists_in for_repo
    insert_and_send insert_pending_repo_index_job existing_job is_rival refs_meet sort_by insert_by
    answer_insert with_job scheduler_ref_candidates trim_space trim_right trim_left trim_left_from
    space_width is_blank trim_prefix has_prefix dedup_from contains_string text_eq
refused_twice = refl

failed_to_enqueue :
    (schedule_repo_index blank_json true no_queue request tables).1 ≡ err enqueue_error
unfolding schedule_repo_index is_valid_type is_schedulable find_first exists_in for_repo
    insert_and_send insert_pending_repo_index_job existing_job is_rival refs_meet sort_by
    answer_insert with_job send_index_task marshal_task answer_enqueue scheduler_ref_candidates
    trim_space trim_right trim_left trim_left_from space_width is_blank trim_prefix has_prefix
    dedup_from contains_string text_eq
failed_to_enqueue = refl

none_pending : All (λ j. is_pending_job (codes "new") j ≡ false) tables.index_jobs
unfolding is_pending_job text_eq
none_pending = (refl, tt)

exclusive : IsExclusive tables.index_jobs
unfolding IsExclusive
exclusive = (λ _. tt, tt)

schedule-IsExclusive_example :
    IsExclusive (schedule_repo_index blank_json true good_fate request tables).0.index_jobs
schedule-IsExclusive_example =
    schedule-IsExclusive blank_json true good_fate request tables (λ _. mem-cons_self, tt) exclusive

abbrev other_fate : Fate
other_fate = record good_fate { job_id = codes "other" }

racing_requests_doubled_example :
    let after = (schedule_repo_index blank_json true good_fate request tables).0 in
    ((schedule_repo_index blank_json true other_fate request after).1 ≡ ok (codes "other"))
    × (¬ IsExclusive (schedule_repo_index blank_json true other_fate request after).0.index_jobs)
racing_requests_doubled_example =
    racing_requests_doubled blank_json true good_fate other_fate request tables (codes "new")
      answered refl refl refl refl

failed_request_settled_example :
    All
      (λ j. is_pending_job (codes "new") j ≡ false)
      (schedule_repo_index blank_json true no_queue request tables).0.index_jobs
failed_request_settled_example =
    failed_request_settled blank_json true no_queue request tables enqueue_error (λ e. cc e)
      (λ e. cc e) none_pending failed_to_enqueue

answered_request-Delivered_example :
    Delivered blank_json
      (codes "new")
      tables
      (schedule_repo_index blank_json true good_fate request tables)
answered_request-Delivered_example =
    answered_request-Delivered blank_json true good_fate request tables (codes "new") answered

no_connection :
    (schedule_connection_sync
      (λ _. codes "p")
      true
      good_fate
      (record { org_id = pos 1; connection_id = pos 4 })
      tables).1
    ≡ err connection_not_found
unfolding schedule_connection_sync find_first
no_connection = refl
