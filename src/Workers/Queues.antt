-- ===== src/Workers/Queues.antt =====
-- pkg/asynqueues/queues.go: the names of the queues and the lists of them.
use codeintel.Base.{List, [], ◌∷◌, map, ℕ, Text, codes}

abbrev pub queue_connection_sync : Text
queue_connection_sync = codes "connection-sync-queue"

abbrev pub queue_repo_index : Text
queue_repo_index = codes "repo-index-queue"

abbrev pub queue_repo_index_rust : Text
queue_repo_index_rust = codes "repo-index-rust"

abbrev pub queue_code_graph_write : Text
queue_code_graph_write = codes "code-graph-write"

abbrev pub queue_account_permission_sync : Text
queue_account_permission_sync = codes "accountPermissionSyncQueue"

abbrev pub queue_repo_permission_sync : Text
queue_repo_permission_sync = codes "repoPermissionSyncQueue"

abbrev pub queue_llm_completion : Text
queue_llm_completion = codes "codeintel-llm-completion"

abbrev pub queue_index_core : Text
queue_index_core = codes "codeintel-index-core"

abbrev pub queue_index_scip_ts_python : Text
queue_index_scip_ts_python = codes "codeintel-index-scip-ts-python"

abbrev pub queue_index_scip_go : Text
queue_index_scip_go = codes "codeintel-index-scip-go"

abbrev pub queue_index_scip_jvm : Text
queue_index_scip_jvm = codes "codeintel-index-scip-jvm"

abbrev pub queue_index_scip_dotnet : Text
queue_index_scip_dotnet = codes "codeintel-index-scip-dotnet"

abbrev pub queue_index_scip_rust_dart : Text
queue_index_scip_rust_dart = codes "codeintel-index-scip-rust-dart"

abbrev pub queue_index_scip_cpp_x86 : Text
queue_index_scip_cpp_x86 = codes "codeintel-index-scip-cpp-x86"

abbrev pub queue_index_scip_ruby_x86 : Text
queue_index_scip_ruby_x86 = codes "codeintel-index-scip-ruby-x86"

-- `All`, which is also `GoSubscribedQueues`.
abbrev pub go_subscribed_queues : List Text
go_subscribed_queues =
    queue_connection_sync ∷ queue_repo_index ∷ queue_code_graph_write
    ∷ queue_account_permission_sync ∷ queue_repo_permission_sync ∷ queue_llm_completion ∷ []

abbrev pub executor_queues : List Text
executor_queues =
    queue_index_core ∷ queue_index_scip_ts_python ∷ queue_index_scip_go ∷ queue_index_scip_jvm
    ∷ queue_index_scip_dotnet ∷ queue_index_scip_rust_dart ∷ queue_index_scip_cpp_x86
    ∷ queue_index_scip_ruby_x86 ∷ []

unfoldable pub default_priorities : List (Text × ℕ)
default_priorities = map (λ q. (q, 1)) go_subscribed_queues
