-- ===== src/Subjobs/Tests.antt =====
-- Rows and payloads, run at one queued subjob.
use codeintel.Base.{
  ◌≡◌, refl, true, false, none, some, [], Text, codes, text_eq, contains_string, ok,
}
use codeintel.Base.Int.{pos}
use codeintel.Workers.{by_name, find_class}
use codeintel.Subjobs.{
  CreateInput, Payload, Json, is_valid_input, is_commit_hash, valid_layer, owns_queue, fits_layer,
  layer_zoekt, status_queued, validate, marshal, unmarshal,
}
use codeintel.Subjobs.Table.{
  Database, scope_not_ready, invalid_create_input, find_id, has_scope, new_row, insert_row,
  upsert_with_status, upsert_queued,
}
use codeintel.Subjobs.Upserts.{Keyed, upsert_again}

abbrev commit : Text
commit = codes "0123456789abcdef0123456789abcdef01234567"

abbrev zoekt_input : CreateInput
zoekt_input = record {
  id = codes "isj_1";
  repo_indexing_job_id = codes "job";
  code_intel_index_id = none;
  org_id = pos 1;
  workspace_id = some (codes "w");
  repo_id = pos 2;
  branch = codes "main";
  revision = codes "refs/heads/main";
  commit_hash = commit;
  layer = layer_zoekt;
  language = none;
  project_root = none;
  indexer = none;
  worker_class = codes "core";
  queue_name = codes "codeintel-index-core";
  max_attempts = pos 0;
  input_digest = none;
  toolchain_digest = none;
  image_digest = none;
}

abbrev ready_database : Database
ready_database = record { rows = []; ready = λ _. true; reachable = true }

queued : (upsert_with_status ready_database zoekt_input status_queued [] []).1 ≡ none
unfolding upsert_with_status insert_row new_row find_id has_scope is_valid_input is_commit_hash
    valid_layer owns_queue fits_layer by_name find_class text_eq contains_string
queued = refl

not_ready :
    (upsert_queued (record ready_database { ready = λ _. false }) zoekt_input).1
    ≡ some scope_not_ready
unfolding upsert_queued upsert_with_status insert_row new_row find_id has_scope is_valid_input
    is_commit_hash valid_layer owns_queue fits_layer by_name find_class text_eq contains_string
not_ready = refl

wrong_queue :
    (upsert_queued ready_database
      (record zoekt_input { queue_name = codes "codeintel-index-scip-go" })).1
    ≡ some invalid_create_input
unfolding upsert_queued upsert_with_status is_valid_input is_commit_hash valid_layer owns_queue
    fits_layer by_name find_class text_eq contains_string
wrong_queue = refl

upsert_again_example :
    upsert_with_status
      (upsert_with_status ready_database zoekt_input status_queued [] []).0
      zoekt_input
      status_queued
      []
      []
    ≡ ((upsert_with_status ready_database zoekt_input status_queued [] []).0, none)
upsert_again_example = upsert_again ready_database zoekt_input status_queued [] [] queued

no_rows : Keyed []
unfolding Keyed
no_rows = tt

abbrev sample_payload : Payload
sample_payload = record {
  subjob_id = codes "isj_1";
  repo_indexing_job_id = codes "job";
  org_id = pos 1;
  workspace_id = some (codes "w");
  repo_id = pos 2;
  branch = codes "main";
  revision = codes "refs/heads/main";
  commit_hash = commit;
  layer = layer_zoekt;
  language = none;
  project_root = none;
  indexer = none;
  worker_class = codes "core";
  queue_name = codes "codeintel-index-core";
  attempt = pos 1;
}

-- Knows one payload.
abbrev sample_json : Json
sample_json = record { encode = λ _. codes "p"; decode = λ _. some sample_payload }

sent : marshal sample_json sample_payload ≡ ok (codes "p")
unfolding marshal validate is_commit_hash valid_layer owns_queue by_name find_class text_eq
    contains_string
sent = refl

received : unmarshal sample_json (codes "p") ≡ ok sample_payload
unfolding unmarshal validate is_commit_hash valid_layer owns_queue by_name find_class text_eq
    contains_string
received = refl
