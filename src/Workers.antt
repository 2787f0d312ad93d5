-- ===== src/Workers.antt =====
-- internal/backend/workerclasses/workerclasses.go: the classes of the executor fabric.
mod Classes
pub mod Queues
pub mod Ownership
mod Tests
unfoldable pub use Classes.*
use codeintel.Base.{
  ℕ, Bool, true, false, Option, none, some, List, [], ◌∷◌, map, if◌then◌else◌, keep, Text, codes,
  text_eq, contains_string, sort_strings,
}

-- `All` returns a copy of the table.
unfoldable pub all : List WorkerClass
all = classes

-- The loops return the first class that passes a test.
unfoldable pub find_class : (WorkerClass → Bool) → List WorkerClass → Option WorkerClass
find_class p [] = none
find_class p (c ∷ cs) = if p c then some c else find_class p cs

unfoldable pub by_name : Text → Option WorkerClass
unfolding find_class
by_name name = find_class (λ c. text_eq c.name name) classes

unfoldable pub for_scip_worker_class : Text → Option WorkerClass
unfolding find_class
for_scip_worker_class scip = find_class (λ c. contains_string c.scip_worker_classes scip) classes

abbrev pub same_mode : ExecutionMode → ExecutionMode → Bool
same_mode ExecutionMode.core ExecutionMode.core = true
same_mode hot_pool hot_pool = true
same_mode cold_job cold_job = true
same_mode _ _ = false

unfoldable pub filter_by_mode : ExecutionMode → List WorkerClass
filter_by_mode mode = keep (λ (c : WorkerClass). same_mode c.mode mode) classes

unfoldable pub hot_pools : List WorkerClass
unfolding filter_by_mode
hot_pools = filter_by_mode hot_pool

unfoldable pub cold_jobs : List WorkerClass
unfolding filter_by_mode
cold_jobs = filter_by_mode cold_job

unfoldable pub queue_names : List Text
unfolding sort_strings
queue_names = sort_strings (map (λ (c : WorkerClass). c.queue_name) classes)
