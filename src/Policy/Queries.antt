-- ===== src/Policy/Queries.antt =====
-- internal/retrievalpolicy/policy.go: what a query asks for. The lowered words decide.
use codeintel.Base.{
  Bool, not, ◌&&◌, ◌||◌, List, [], ◌∷◌, ◌++◌, ℕ, suc, leb, ltb, is_empty, length, Text, codes,
  contains, contains_string, if◌then◌else◌,
}
use codeintel.Policy.{
  SourceHint, Collected, trim_front, trim_back, add, add_all, hint, otlp_hints, operator_hints,
  contains_any, has_instrumentation_hints,
}

-- `strings.Join(terms, "|")`
abbrev pub join_bar : List Text → Text
join_bar [] = []
join_bar (t ∷ []) = t
join_bar (t ∷ u ∷ us) = t ++ codes "|" ++ join_bar (u ∷ us)

abbrev pub otlp_terms : List Text
otlp_terms =
    codes "ExportTraceServiceRequest"
    ∷ codes "TraceService"
    ∷ codes "otlptracegrpc"
    ∷ codes "otlptracehttp"
    ∷ codes "NewExporter"
    ∷ codes "ExportSpans"
    ∷ codes "SpanExporter"
    ∷ codes "NewTracerProvider"
    ∷ codes "TracerProvider"
    ∷ codes "WithEndpoint"
    ∷ codes "ConsumeTraces"
    ∷ codes "pdata.Traces"
    ∷ codes "trace_service.proto"
    ∷ codes "generated_proto_exporttraceservicerequest"
    ∷ codes "receiver"
    ∷ codes "exporter"
    ∷ []

module _ (to_lower : Text → Text) where
  -- The loop of `cleanTerms`, with the number of terms so far.
  abbrev pub clean_from : ℕ → ℕ → List Text → List Text → List Text
  clean_from n max seen [] = []
  clean_from n max seen (raw ∷ rest) =
      let candidate = trim_back (trim_front raw) in
      let lower = to_lower candidate in
      let skipping = clean_from n max seen rest in
      let more = clean_from (suc n) max (lower ∷ seen) rest in
      if ltb (length candidate) 3 || contains_string seen lower
      then skipping
      else candidate ∷ (if leb max (suc n) then [] else more)

  unfoldable pub clean_terms : List Text → ℕ → List Text
  unfolding contains_string
  clean_terms candidates max = clean_from 0 max [] candidates

  unfoldable pub otlp_flow_pattern : Text → Text
  unfolding contains clean_terms
  otlp_flow_pattern query =
      if not (
        contains_any (to_lower query) (
          codes "otlp"
          ∷ codes "exporttrace"
          ∷ codes "trace export"
          ∷ codes "traceservice"
          ∷ codes "collector"
          ∷ []))
      then []
      else join_bar (clean_terms otlp_terms 32)

  abbrev pub when_any : Text → List Text → List Text → List Text
  when_any lower words paths = if contains_any lower words then paths else []

  unfoldable pub preferred_path_fragments : Text → List Text
  unfolding has_instrumentation_hints contains otlp_flow_pattern
  preferred_path_fragments query =
      let lower = to_lower query in
      (if has_instrumentation_hints lower
          || contains_any lower
              (codes "webhook" ∷ codes "admission" ∷ codes "controller" ∷ codes "crd" ∷ [])
        then (codes "apis/v1alpha1/instrumentation_types.go"
            ∷ codes "apis/v1beta1/instrumentation_types.go"
            ∷ codes "config/webhook/manifests.yaml"
            ∷ codes "config/default/manager_webhook_patch.yaml"
            ∷ codes "main.go"
            ∷ codes "internal/webhook/podmutation/webhookhandler.go"
            ∷ codes "internal/instrumentation/podmutator.go"
            ∷ codes "internal/instrumentation/sdk.go"
            ∷ codes "internal/instrumentation/annotation.go"
            ∷ [])
          ++ when_any lower (codes "node" ∷ codes "javascript" ∷ codes "js" ∷ [])
              (codes "internal/instrumentation/nodejs.go" ∷ [])
          ++ when_any lower (codes "python" ∷ []) (codes "internal/instrumentation/python.go" ∷ [])
          ++ when_any lower (codes ".net" ∷ codes "dotnet" ∷ codes "c#" ∷ [])
              (codes "internal/instrumentation/dotnet.go" ∷ [])
        else [])
      ++ (if is_empty (otlp_flow_pattern query)
          then []
          else codes "pdata/internal/generated_proto_exporttraceservicerequest.go"
            ∷ codes "trace_service.proto"
            ∷ codes "otlptracegrpc"
            ∷ codes "otlptracehttp"
            ∷ codes "exporter"
            ∷ codes "receiver"
            ∷ [])

  abbrev pub wants_python_constants : Text → Bool
  wants_python_constants lower = contains_any lower (
      codes "python"
      ∷ codes "pythonpath"
      ∷ codes "envpythonpath"
      ∷ codes "pythonpathprefix"
      ∷ codes "pythonpathsuffix"
      ∷ [])

  -- The hints that the loop's body adds for a repository, in their order.
  unfoldable pub repo_hints : Bool → Bool → Text → List SourceHint
  unfolding otlp_hints operator_hints contains
  repo_hints wants_python wants_otlp repo =
      let repo_lower = to_lower repo in
      (if wants_otlp then otlp_hints repo repo_lower else [])
      ++ (if not (contains repo_lower (codes "operator"))
          then []
          else operator_hints repo
            ++ (if wants_python
                then hint repo (codes "internal/instrumentation/python.go") 1
                    (codes "python-constants") 40
                  ∷ []
                else []))

  abbrev pub collect : Bool → Bool → List Text → Collected → Collected
  collect wants_python wants_otlp [] c = c
  collect wants_python wants_otlp (repo ∷ repos) c =
      collect wants_python wants_otlp repos (add_all (repo_hints wants_python wants_otlp repo) c)

  unfoldable pub mandatory_source_hints : Text → List Text → List SourceHint
  unfolding has_instrumentation_hints contains otlp_flow_pattern repo_hints add
  mandatory_source_hints query repos =
      let lower = to_lower query in
      let wants_python = wants_python_constants lower in
      let wants_otlp = not (is_empty (otlp_flow_pattern query)) in
      if not (has_instrumentation_hints lower)
        && not (contains_any lower (codes "crd" ∷ codes "webhook" ∷ codes "admission" ∷ []))
        && not wants_python
        && not wants_otlp
      then []
      else (collect wants_python wants_otlp repos (record { out = []; seen = [] })).out
