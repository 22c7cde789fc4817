-- ===== src/Examples/Metering.antt =====
-- A registry that keeps the names of its vectors.
use chainmesh.Base.{
  refl, String, none, some, List, [], ◌∷◌, contains, length, eqb, eqb_iff, if◌then◌else◌,
}
use chainmesh.Client
use chainmesh.Telemetry.{kind_usage}
use chainmesh.Metrics.{full_name, Prometheus, Emission, of_client, dropped}

abbrev registry : Prometheus
registry = record {
  State = List String;
  names = λ s. s;
  register = λ o s. if contains (full_name o) s then none else some (full_name o ∷ s);
  with_label_values = λ o values s. if eqb (length values) (length o.labels) then some s else none;
  register_new = λ o s new. (full_name o ∷ s, rw new refl, refl);
  with_label_values_fit =
      λ o values s fits. (s, rw ((eqb_iff (length values) (length o.labels)).1 fits) refl);
}

abbrev emissions : List Emission
emissions =
    of_client (Client.upstream_error "eth" "http://a" "eth_chainId" "transport")
    ∷ dropped kind_usage
    ∷ []

-- Names of the collectors that the default registry has.
abbrev runtime_names : List String
runtime_names = "go_goroutines" ∷ "go_info" ∷ "process_open_fds" ∷ []
