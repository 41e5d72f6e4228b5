-- ===== src/App/References.antt =====
-- `selectedPodObjectReferences` of internal/app/select_scope.go: the names of the ConfigMaps and the
-- Secrets that a Pod refers to. A set is the list of its names, each once.
use k8s_diagnose.Prelude.{
  String, Option, none, some, List, [], ◌∷◌, ◌++◌, if◌then◌else◌, ◌==◌, contains,
}
use k8s_diagnose.Kube.Types.{Reference, Container, Volume, Pod}

unfoldable pub add_name : String → List String → List String
add_name name names =
    if name == "" then names else if contains names name then names else names ++ name ∷ []

unfoldable pub add_optional : Option String → List String → List String
unfolding add_name
add_optional none names = names
add_optional (some name) names = add_name name names

-- The two sets, ConfigMaps first.
abbrev pub Names : Type 0
Names = List String × List String

unfoldable pub add_reference : Reference → Names → Names
unfolding add_optional
add_reference r (config_maps, secrets) =
    (add_optional r.config_map config_maps, add_optional r.secret secrets)

unfoldable pub add_references : List Reference → Names → Names
unfolding add_reference
add_references [] names = names
add_references (r ∷ rs) names = add_references rs (add_reference r names)

-- The closure `addContainer`.
unfoldable pub add_containers : List Container → Names → Names
unfolding add_references
add_containers [] names = names
add_containers (c ∷ cs) names =
    add_containers cs (add_references c.env (add_references c.env_from names))

unfoldable pub add_pull_secrets : List String → Names → Names
unfolding add_name
add_pull_secrets [] names = names
add_pull_secrets (n ∷ ns) (config_maps, secrets) =
    add_pull_secrets ns (config_maps, add_name n secrets)

-- The closure `addSecretReference` at each driver.
unfoldable pub add_drivers : List (Option String) → Names → Names
unfolding add_optional
add_drivers [] names = names
add_drivers (o ∷ os) (config_maps, secrets) = add_drivers os (config_maps, add_optional o secrets)

unfoldable pub add_volumes : List Volume → Names → Names
unfolding add_references add_drivers
add_volumes [] names = names
add_volumes (v ∷ vs) names = add_volumes vs (
    add_drivers v.drivers (elim v.projected [
      | none ↦ add_reference v.direct names
      | some sources ↦ add_references sources (add_reference v.direct names)
    ]))

unfoldable pub selected_pod_object_references : Pod → Names
unfolding add_containers add_pull_secrets add_volumes
selected_pod_object_references p = add_volumes p.volumes (
    add_pull_secrets p.image_pull_secrets (
      add_containers p.ephemeral_containers
        (add_containers p.containers (add_containers p.init_containers ([], [])))))
