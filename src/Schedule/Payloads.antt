-- ===== src/Schedule/Payloads.antt =====
-- What can be sent on the repo-index queue is accepted by its worker.
use codeintel.Base.{
  ◌≡◌, refl, sym, ap, ◌∙◌, inl, inr, true, false, some, Text, ok, ok-injective, Bool-cases,
}
use codeintel.Base.Int.{pos, leb_ℤ}
use codeintel.Schedule.RepoIndex.{
  TaskPayload, TaskJson, is_valid_type, marshal_task, unmarshal_either, unmarshal_task,
  unmarshal_legacy_for_backfill,
}

pub marshal_task-encode :
    (json : TaskJson) (p : TaskPayload) (raw : Text)
    → marshal_task json p ≡ ok raw
    → (raw ≡ json.encode p) × (is_valid_type p.kind ≡ true) × (leb_ℤ p.org_id (pos 0) ≡ false)
unfolding marshal_task
marshal_task-encode json p raw h = elim (Bool-cases (is_valid_type p.kind)) [
  | inr e ↦ cc (rw (marshal_task, e) at h)
  | inl e ↦ elim (Bool-cases (leb_ℤ p.org_id (pos 0))) [
    | inl k ↦ cc (rw (marshal_task, e, k) at h)
    | inr k ↦ (sym (ok-injective (rw (marshal_task, e, k) at h)), e, k)
  ]
]

-- If the JSON decoder gives back the payload, a task that can be sent is accepted as it was sent, by
-- the strict decoder and by the one for tasks from before the payloads had an organisation.
pub task_roundtrip :
    (json : TaskJson) (p : TaskPayload) (raw : Text)
    → json.decode (json.encode p) ≡ some p
    → marshal_task json p ≡ ok raw
    → (unmarshal_task json raw ≡ ok p) × (unmarshal_legacy_for_backfill json raw ≡ ok p)
unfolding unmarshal_task unmarshal_legacy_for_backfill unmarshal_either
task_roundtrip json p raw back sent =
    let (same, valid, owned) = marshal_task-encode json p raw sent in
    let found = ap json.decode same ∙ back in
    (
      rw (unmarshal_either, found, valid, owned) refl,
      rw (unmarshal_either, found, valid, owned) refl,
    )
