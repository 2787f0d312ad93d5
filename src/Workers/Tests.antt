-- ===== src/Workers/Tests.antt =====
-- The theorems on the table at one class.
use codeintel.Base.{◌≡◌, refl, some, codes, text_eq, contains_string}
use codeintel.Workers.{for_scip_worker_class, by_name, class_core, scip_jvm}

jvm_sample : for_scip_worker_class (codes "jvm") ≡ some scip_jvm
unfolding for_scip_worker_class contains_string text_eq
jvm_sample = refl

core_sample : by_name (codes "core") ≡ some class_core
unfolding by_name text_eq
core_sample = refl
