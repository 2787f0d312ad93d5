-- ===== src/CodeGraph/Format.antt =====
-- What the projection of a snapshot keeps of it.
use mathlib.Core.List.{Perm}
use mathlib.Core.Path.{subst}
use codeintel.Base.{
  ◌≡◌, refl, ◌∙◌, ap, ◌↔◌, true, not, some, List, [], ◌∷◌, map, length, is_empty, arith, text_lt,
  sort_by, IsOrder, IsSortedBy, text-IsOrder, IsOrder-by_key, sort_by-perm, suc, ◌≢◌,
  length-sort_by, sort_by-IsSortedBy,
}
use codeintel.CodeGraph.{
  CodeGraphRevisionInput, CodeGraphIndexInput, CodeGraphRevisionOutput, CodeGraphIndexOutput,
  revision_output, revision_less, format_present, format_code_graph_index,
}

pub revision-IsOrder : IsOrder revision_less
revision-IsOrder = IsOrder-by_key (λ r. r.revision) text_lt revision_less (λ r s. refl) text-IsOrder

length-map : (xs : List CodeGraphRevisionInput) → length (map revision_output xs) ≡ length xs
length-map [] = refl
length-map (x ∷ xs) = ap suc (length-map xs)

-- The revisions of a projected snapshot.
abbrev projected : List CodeGraphRevisionInput → List CodeGraphRevisionOutput
projected rs = sort_by revision_less (map revision_output rs)

length-projected : (rs : List CodeGraphRevisionInput) → length (projected rs) ≡ length rs
length-projected rs = length-sort_by revision_less (map revision_output rs) ∙ length-map rs

active_iff : (rs : List CodeGraphRevisionInput) → (not (is_empty (projected rs)) ≡ true) ↔ (rs ≢ [])
active_iff [] = ground (arith, length-projected [])
active_iff (r ∷ rs) = ground (arith, length-projected (r ∷ rs))

-- A projected snapshot lists each active revision of the row once, by name, counts them, and is
-- active exactly if there is one.
pub format_revisions :
    (index : CodeGraphIndexInput) {o : CodeGraphIndexOutput}
    → format_code_graph_index (some index) ≡ some o
    → Perm o.active_revisions (map revision_output index.revisions)
      × IsSortedBy revision_less o.active_revisions
      × (o.active_revision_count ≡ length index.revisions)
      × ((o.is_active ≡ true) ↔ (index.revisions ≢ []))
unfolding format_code_graph_index format_present
format_revisions index {o} e =
    let p : format_present index ≡ o = cc in
    subst
      (λ (q : CodeGraphIndexOutput).
        Perm q.active_revisions (map revision_output index.revisions)
        × IsSortedBy revision_less q.active_revisions
        × (q.active_revision_count ≡ length index.revisions)
        × ((q.is_active ≡ true) ↔ (index.revisions ≢ [])))
      p
      (
        sort_by-perm revision_less (map revision_output index.revisions),
        sort_by-IsSortedBy revision_less revision-IsOrder (map revision_output index.revisions),
        length-projected index.revisions,
        active_iff index.revisions,
      )
