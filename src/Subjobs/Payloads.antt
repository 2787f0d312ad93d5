-- ===== src/Subjobs/Payloads.antt =====
-- Payloads across the queue: what a worker accepts, and that it gets what was sent.
use mathlib.Core.Path.{subst}
use codeintel.Base.{
  ◌≡◌, inl, inr, true, false, some, arith, Option-cases, Text, text_eq_iff, ok, chain_steps,
}
use codeintel.Base.Int.{pos, leb_ℤ}
use codeintel.Workers.{WorkerClass, by_name}
use codeintel.Subjobs.{
  Payload, Json, validate, marshal, unmarshal, owns_queue, is_commit_hash, valid_layer,
  is_blank_ptr,
}

-- What every accepted payload is.
unfoldable pub Scoped : Payload → Type 0
Scoped p =
    (leb_ℤ p.org_id (pos 0) ≡ false)
    × (leb_ℤ p.repo_id (pos 0) ≡ false)
    × (is_blank_ptr p.workspace_id ≡ false)
    × (is_commit_hash p.commit_hash ≡ true)
    × (valid_layer p.layer ≡ true)
    × ((class : WorkerClass) × (by_name p.worker_class ≡ some class)
        × (class.queue_name ≡ p.queue_name))

pub owner-owns_queue :
    (worker_class queue_name : Text)
    → owns_queue worker_class queue_name ≡ true
    → (class : WorkerClass) × (by_name worker_class ≡ some class) × (class.queue_name ≡ queue_name)
unfolding owns_queue
owner-owns_queue w q h = elim (Option-cases (by_name w)) [
  | inl e ↦ cc (rw (owns_queue, e) at h)
  | inr (class, e) ↦ (class, e, (text_eq_iff class.queue_name q).0 (rw (owns_queue, e) at h))
]

validate-Scoped : (p : Payload) (u : Unit {0}) → validate p ≡ ok u → Scoped p
unfolding validate Scoped
validate-Scoped p u h = (
  ground (arith, h),
  ground (arith, h),
  ground (arith, h),
  ground (arith, h),
  ground (arith, h),
  owner-owns_queue p.worker_class p.queue_name (ground (arith, h)),
)

-- A worker accepts only payloads with positive ids, a workspace, a commit hash of forty hex digits,
-- a known layer, and a class of the table with that class's queue.
pub unmarshal-Scoped :
    (json : Json) (raw : Text) (p : Payload) → unmarshal json raw ≡ ok p → Scoped p
unfolding unmarshal
unmarshal-Scoped json raw p h = elim (Option-cases (json.decode raw)) [
  | inl e ↦ cc (rw (unmarshal, e) at h)
  | inr (q, e) ↦
      let (u, valid, same) = chain_steps (validate q) (λ _. ok q) (rw (unmarshal, e) at h) in
      subst Scoped (ground (arith, same)) (validate-Scoped q u valid)
]

-- A payload that can be sent comes back as it was sent.
pub payload_roundtrip :
    (json : Json) (p : Payload) (raw : Text)
    → json.decode (json.encode p) ≡ some p
    → marshal json p ≡ ok raw
    → unmarshal json raw ≡ ok p
unfolding marshal unmarshal
payload_roundtrip json p raw back h =
    let (u, valid, sent) = chain_steps (validate p) (λ _. ok (json.encode p)) h in
    let there : json.encode p ≡ raw = ground (arith, sent) in
    rw⁻¹ there (rw (unmarshal, back, valid))
