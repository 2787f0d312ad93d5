-- ===== src/Workers/Classes.antt =====
-- workerclasses.go: the table of the worker classes.
use codeintel.Base.{ℕ, List, [], ◌∷◌, Text, codes}
use codeintel.Workers.Queues.{
  queue_index_core, queue_index_scip_cpp_x86, queue_index_scip_dotnet, queue_index_scip_go,
  queue_index_scip_jvm, queue_index_scip_ruby_x86, queue_index_scip_rust_dart,
  queue_index_scip_ts_python,
}

pub data ExecutionMode : Type 0 where
  core hot_pool cold_job : ExecutionMode

pub record WorkerClass : Type 0 where
  pub name : Text
  pub mode : ExecutionMode
  pub queue_name : Text
  pub image : Text
  pub node_pool : Text
  pub scip_worker_classes : List Text
  pub scip_indexers : List Text
  pub pod_concurrency : ℕ
  pub max_pods : ℕ
  pub cpu_request : Text
  pub memory_request : Text
  pub cpu_limit : Text
  pub memory_limit : Text
  pub architecture : Text
  pub description : Text

abbrev pub class_core : WorkerClass
class_core = record {
  name = codes "core";
  mode = ExecutionMode.core;
  queue_name = queue_index_core;
  image = codes "codeintel-indexer-rs-core";
  node_pool = codes "index-core";
  scip_worker_classes = [];
  scip_indexers = [];
  pod_concurrency = 2;
  max_pods = 100;
  cpu_request = codes "500m";
  memory_request = codes "1Gi";
  cpu_limit = codes "2";
  memory_limit = codes "4Gi";
  architecture = codes "multi";
  description =
      codes
        "Backend-owned clone, commit snapshot, Zoekt, AST/tree-sitter scheduling, and activation without language SDKs.";
}

abbrev pub scip_ts_python : WorkerClass
scip_ts_python = record {
  name = codes "scip-ts-python";
  mode = hot_pool;
  queue_name = queue_index_scip_ts_python;
  image = codes "codeintel-scip-ts-python";
  node_pool = codes "index-light";
  scip_worker_classes = codes "ts-js" ∷ codes "python" ∷ [];
  scip_indexers = codes "typescript" ∷ codes "python" ∷ [];
  pod_concurrency = 4;
  max_pods = 300;
  cpu_request = codes "500m";
  memory_request = codes "1Gi";
  cpu_limit = codes "4";
  memory_limit = codes "6Gi";
  architecture = codes "multi";
  description = codes "Warm pool for frequent TypeScript, JavaScript, and Python indexing.";
}

abbrev pub scip_go : WorkerClass
scip_go = record {
  name = codes "scip-go";
  mode = hot_pool;
  queue_name = queue_index_scip_go;
  image = codes "codeintel-scip-go";
  node_pool = codes "index-light";
  scip_worker_classes = codes "go" ∷ [];
  scip_indexers = codes "go" ∷ [];
  pod_concurrency = 4;
  max_pods = 200;
  cpu_request = codes "500m";
  memory_request = codes "1Gi";
  cpu_limit = codes "4";
  memory_limit = codes "6Gi";
  architecture = codes "multi";
  description = codes "Warm pool for Go indexing and module-aware SCIP extraction.";
}

abbrev pub scip_jvm : WorkerClass
scip_jvm = record {
  name = codes "scip-jvm";
  mode = cold_job;
  queue_name = queue_index_scip_jvm;
  image = codes "codeintel-scip-jvm";
  node_pool = codes "index-heavy";
  scip_worker_classes = codes "jvm" ∷ [];
  scip_indexers = codes "java" ∷ [];
  pod_concurrency = 1;
  max_pods = 100;
  cpu_request = codes "1";
  memory_request = codes "4Gi";
  cpu_limit = codes "6";
  memory_limit = codes "16Gi";
  architecture = codes "multi";
  description = codes "Ephemeral JVM worker for Maven, Gradle, and SBT projects.";
}

abbrev pub scip_dotnet : WorkerClass
scip_dotnet = record {
  name = codes "scip-dotnet";
  mode = cold_job;
  queue_name = queue_index_scip_dotnet;
  image = codes "codeintel-scip-dotnet";
  node_pool = codes "index-heavy";
  scip_worker_classes = codes "dotnet" ∷ [];
  scip_indexers = codes "dotnet" ∷ [];
  pod_concurrency = 1;
  max_pods = 100;
  cpu_request = codes "1";
  memory_request = codes "4Gi";
  cpu_limit = codes "6";
  memory_limit = codes "16Gi";
  architecture = codes "multi";
  description = codes "Ephemeral .NET worker for solution and project-file indexing.";
}

abbrev pub scip_rust_dart : WorkerClass
scip_rust_dart = record {
  name = codes "scip-rust-dart";
  mode = cold_job;
  queue_name = queue_index_scip_rust_dart;
  image = codes "codeintel-scip-rust-dart";
  node_pool = codes "index-heavy";
  scip_worker_classes = codes "rust-dart" ∷ [];
  scip_indexers = codes "rust" ∷ codes "dart" ∷ [];
  pod_concurrency = 1;
  max_pods = 100;
  cpu_request = codes "1";
  memory_request = codes "4Gi";
  cpu_limit = codes "6";
  memory_limit = codes "16Gi";
  architecture = codes "multi";
  description = codes "Ephemeral worker for Cargo/rust-analyzer and Dart SCIP extraction.";
}

abbrev pub scip_cpp_x86 : WorkerClass
scip_cpp_x86 = record {
  name = codes "scip-cpp-x86";
  mode = cold_job;
  queue_name = queue_index_scip_cpp_x86;
  image = codes "codeintel-scip-cpp";
  node_pool = codes "index-native-x86";
  scip_worker_classes = codes "cpp" ∷ [];
  scip_indexers = codes "clang" ∷ [];
  pod_concurrency = 1;
  max_pods = 50;
  cpu_request = codes "2";
  memory_request = codes "6Gi";
  cpu_limit = codes "8";
  memory_limit = codes "24Gi";
  architecture = codes "amd64";
  description = codes "Architecture-specific C/C++ worker for compile_commands.json projects.";
}

abbrev pub scip_ruby_x86 : WorkerClass
scip_ruby_x86 = record {
  name = codes "scip-ruby-x86";
  mode = cold_job;
  queue_name = queue_index_scip_ruby_x86;
  image = codes "codeintel-scip-ruby";
  node_pool = codes "index-native-x86";
  scip_worker_classes = codes "ruby" ∷ [];
  scip_indexers = codes "ruby" ∷ [];
  pod_concurrency = 1;
  max_pods = 50;
  cpu_request = codes "1";
  memory_request = codes "2Gi";
  cpu_limit = codes "4";
  memory_limit = codes "8Gi";
  architecture = codes "amd64";
  description = codes "Architecture-specific Ruby worker until an arm64 toolchain is approved.";
}

abbrev pub classes : List WorkerClass
classes =
    class_core ∷ scip_ts_python ∷ scip_go ∷ scip_jvm ∷ scip_dotnet ∷ scip_rust_dart ∷ scip_cpp_x86
    ∷ scip_ruby_x86 ∷ []
