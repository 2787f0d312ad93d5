-- ===== src/Schedule/Sync.antt =====
-- `ScheduleConnectionSync`, and the payload of pkg/connectionsync.
use codeintel.Base.{
  Bool, not, ◌&&◌, ◌||◌, none, some, ◌∷◌, Text, text_eq, Result, ok, err, if◌then◌else◌, find_first,
  update,
}
use codeintel.Base.Int.{ℤ, pos, leb_ℤ, eqb_ℤ}
use codeintel.Workers.Queues.{queue_connection_sync}
use codeintel.Leases.{done, refused, lost}
use codeintel.Schedule.{
  pending, failed, SyncJob, Connection, Tables, ScheduleError, unavailable, missing_ids,
  connection_not_found, load_error, insert_error, enqueue_error, Fate, is_still_pending,
  failure_text,
}
use codeintel.Schedule.Index.{enqueued, unless_refused}

pub record SyncPayload : Type 0 where
  pub job_id : Text
  pub connection_id : ℤ
  pub connection_name : Text
  pub org_id : ℤ

pub record ConnectionSyncRequest : Type 0 where
  pub org_id : ℤ
  pub connection_id : ℤ

unfoldable pub mark_connection_sync_job_failed_after_enqueue_error :
    Fate → Text → ℤ → Tables → Tables
unfolding update unless_refused
mark_connection_sync_job_failed_after_enqueue_error fate job_id connection_id t =
    unless_refused fate.marking t (record t {
      sync_jobs =
          update
            (λ (j : SyncJob).
              text_eq j.id job_id
              && eqb_ℤ j.connection_id connection_id
              && is_still_pending j.status)
            (λ (j : SyncJob). record j {
              status = failed;
              error_message = some (failure_text fate.cause);
              completed_at = some fate.now;
              updated_at = fate.now;
            })
            t.sync_jobs;
    })

abbrev pub pending_sync : Fate → ℤ → SyncJob
pending_sync fate connection_id = record {
  id = fate.job_id;
  connection_id = connection_id;
  status = pending;
  error_message = none;
  completed_at = none;
  updated_at = fate.now;
}

-- What follows the INSERT; encoding this payload cannot fail.
unfoldable pub send_sync_task :
    (SyncPayload → Text)
    → Fate
    → ConnectionSyncRequest
    → Text
    → Tables
    → Tables × Result ScheduleError Text
unfolding mark_connection_sync_job_failed_after_enqueue_error
send_sync_task encode fate req name t =
    let payload = encode (record {
      job_id = fate.job_id;
      connection_id = req.connection_id;
      connection_name = name;
      org_id = req.org_id;
    }) in
    let sent =
      enqueued fate.enqueueing (record { queue = queue_connection_sync; payload = payload }) t in
    elim fate.enqueueing [
      | done ↦ (sent, ok fate.job_id)
      | _ ↦ (
        mark_connection_sync_job_failed_after_enqueue_error fate fate.job_id req.connection_id sent,
        err enqueue_error,
      )
    ]

unfoldable pub schedule_connection_sync :
    (SyncPayload → Text)
    → Bool
    → Fate
    → ConnectionSyncRequest
    → Tables
    → Tables × Result ScheduleError Text
unfolding find_first send_sync_task
schedule_connection_sync encode configured fate req t =
    let inserted = record t { sync_jobs = pending_sync fate req.connection_id ∷ t.sync_jobs } in
    if not configured
    then (t, err unavailable)
    else if leb_ℤ req.org_id (pos 0) || leb_ℤ req.connection_id (pos 0)
    then (t, err missing_ids)
    else if not fate.loading
    then (t, err load_error)
    else elim (find_first
        (λ (c : Connection). eqb_ℤ c.id req.connection_id && eqb_ℤ c.org_id req.org_id)
        t.connections) [
          | none ↦ (t, err connection_not_found)
          | some c ↦ elim fate.inserting [
            | done ↦ send_sync_task encode fate req c.name inserted
            | refused ↦ (t, err insert_error)
            | lost ↦ (inserted, err insert_error)
          ]
        ]
