-- ===== src/Policy.antt =====
-- internal/retrievalpolicy/policy.go: the source slices that a query about a known family of
-- repositories must read. `strings.ToLower` is a parameter.
pub mod Queries
pub mod Hints
mod Tests
use codeintel.Base.{
  Bool, true, false, not, ◌&&◌, ◌||◌, List, [], ◌∷◌, ◌++◌, ℕ, zero, suc, ◌==◌, leb, ltb, is_empty,
  length, Text, codes, text_eq, contains, contains_string, if◌then◌else◌,
}

pub record SourceHint : Type 0 where
  pub repo : Text
  pub path : Text
  pub line : ℕ
  pub source : Text
  pub score_boost : ℕ

abbrev pub cutset : Text
cutset = codes ".,:;()[]{}<>\"'`"

abbrev pub has_byte : Text → ℕ → Bool
has_byte [] c = false
has_byte (x ∷ xs) c = x == c || has_byte xs c

abbrev pub trim_front : Text → Text
trim_front [] = []
trim_front (c ∷ cs) = let rest = trim_front cs in if has_byte cutset c then rest else c ∷ cs

abbrev pub all_cut : Text → Bool
all_cut [] = true
all_cut (c ∷ cs) = has_byte cutset c && all_cut cs

abbrev pub trim_back : Text → Text
trim_back [] = []
trim_back (c ∷ cs) = let rest = trim_back cs in if all_cut (c ∷ cs) then [] else c ∷ rest

-- The hints so far and the keys of the map.
pub record Collected : Type 0 where
  pub out : List SourceHint
  pub seen : List Text

abbrev pub max_hints : ℕ
max_hints = 96

-- `repo + "\x00" + path + "\x00" + source`
unfoldable pub hint_key : SourceHint → Text
hint_key h = h.repo ++ 0 ∷ h.path ++ 0 ∷ h.source

-- The closure `add`.
unfoldable pub add : SourceHint → Collected → Collected
unfolding hint_key contains_string
add h c =
    if leb max_hints (length c.out)
    then c
    else if contains_string c.seen (hint_key h)
    then c
    else record { out = c.out ++ h ∷ []; seen = hint_key h ∷ c.seen }

abbrev pub add_all : List SourceHint → Collected → Collected
add_all [] c = c
add_all (h ∷ hs) c = add_all hs (add h c)

abbrev pub hint : Text → Text → ℕ → Text → ℕ → SourceHint
hint repo path line source score_boost = record {
  repo = repo;
  path = path;
  line = line;
  source = source;
  score_boost = score_boost;
}

abbrev pub otlp_hint : Text → Text → ℕ → ℕ → SourceHint
otlp_hint repo path line score_boost = hint repo path line (codes "otlp-flow") score_boost

-- The calls of `add` in `addOTLPHints`.
unfoldable pub otlp_hints : Text → Text → List SourceHint
unfolding contains
otlp_hints repo repo_lower =
    if contains repo_lower (codes "opentelemetry-proto")
    then otlp_hint repo (codes "opentelemetry/proto/collector/trace/v1/trace_service.proto") 30 80
      ∷ otlp_hint repo (codes "opentelemetry/proto/trace/v1/trace.proto") 48 70
      ∷ []
    else if contains repo_lower (codes "opentelemetry-specification")
    then otlp_hint repo (codes "oteps/0099-otlp-http.md") 32 70
      ∷ otlp_hint repo (codes "specification/protocol/exporter.md") 1 55
      ∷ []
    else if contains repo_lower (codes "opentelemetry-go")
    then otlp_hint repo (codes "exporters/otlp/otlptrace/otlptracehttp/client.go") 159 80
      ∷ otlp_hint repo (codes "exporters/otlp/otlptrace/otlptracegrpc/client.go") 197 75
      ∷ []
    else if contains repo_lower (codes "opentelemetry-js")
    then otlp_hint repo (codes "experimental/packages/otlp-transformer/src/trace/internal.ts") 97 80
      ∷ otlp_hint repo
          (codes
            "experimental/packages/otlp-exporter-base/src/transport/http-exporter-transport.ts")
          28 65
      ∷ []
    else if contains repo_lower (codes "opentelemetry-java")
    then otlp_hint repo
        (codes
          "exporters/otlp/all/src/main/java/io/opentelemetry/exporter/otlp/trace/OtlpGrpcSpanExporter.java")
        21 80
      ∷ otlp_hint repo
          (codes
            "exporters/otlp/all/src/main/java/io/opentelemetry/exporter/otlp/http/trace/OtlpHttpSpanExporter.java")
          25 75
      ∷ []
    else if contains repo_lower (codes "opentelemetry-python")
    then otlp_hint repo
        (codes
          "exporter/opentelemetry-exporter-otlp-proto-grpc/src/opentelemetry/exporter/otlp/proto/grpc/trace_exporter/__init__.py")
        60 80
      ∷ otlp_hint repo
          (codes
            "exporter/opentelemetry-exporter-otlp-proto-http/src/opentelemetry/exporter/otlp/proto/http/trace_exporter/__init__.py")
          72 75
      ∷ []
    else if contains repo_lower (codes "opentelemetry-dotnet")
    then otlp_hint repo
        (codes "src/OpenTelemetry.Exporter.OpenTelemetryProtocol/OtlpTraceExporter.cs") 17 80
      ∷ otlp_hint repo
          (codes
            "src/OpenTelemetry.Exporter.OpenTelemetryProtocol/OtlpTraceExporterHelperExtensions.cs")
          23 75
      ∷ []
    else if contains repo_lower (codes "opentelemetry-rust")
    then otlp_hint repo (codes "opentelemetry-otlp/src/span.rs") 145 80
      ∷ otlp_hint repo (codes "opentelemetry-otlp/src/exporter/tonic/trace.rs") 22 75
      ∷ []
    else if contains repo_lower (codes "opentelemetry-collector")
    then otlp_hint repo (codes "pdata/internal/generated_proto_exporttraceservicerequest.go") 20 85
      ∷ otlp_hint repo (codes "exporter/otlphttpexporter/otlp.go") 93 80
      ∷ otlp_hint repo (codes "service/internal/builders/exporter.go") 24 65
      ∷ []
    else []

unfoldable pub operator_hints : Text → List SourceHint
operator_hints repo =
    hint repo (codes "apis/v1alpha1/instrumentation_types.go") 13 (codes "crd-spec") 40
    ∷ hint repo (codes "apis/v1alpha1/instrumentation_types.go") 232 (codes "crd-spec") 40
    ∷ hint repo (codes "apis/v1alpha1/instrumentation_types.go") 259 (codes "crd-spec") 40
    ∷ hint repo (codes "config/webhook/manifests.yaml") 1 (codes "webhook-registration") 40
    ∷ hint repo (codes "config/default/manager_webhook_patch.yaml") 1 (codes "webhook-registration")
        40
    ∷ hint repo (codes "main.go") 448 (codes "webhook-registration") 40
    ∷ []

abbrev pub contains_any : Text → List Text → Bool
contains_any text [] = false
contains_any text (w ∷ ws) = contains text w || contains_any text ws

unfoldable pub has_instrumentation_hints : Text → Bool
unfolding contains
has_instrumentation_hints lower = contains_any lower (
    codes "instrumentation"
    ∷ codes "auto-instrument"
    ∷ codes "inject"
    ∷ codes "sdk"
    ∷ codes "runtime"
    ∷ [])
