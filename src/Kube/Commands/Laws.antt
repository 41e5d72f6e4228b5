-- ===== src/Kube/Commands/Laws.antt =====
-- The commands are distinct, and there is one for each input that was fetched.
use k8s_diagnose.Prelude.{
  String, true, false, Option, none, some, List, [], ◌∷◌, ◌≡◌, refl, arith, if◌then◌else◌, ◌==◌,
  ◌&&◌, ◌||◌, eq_iff, contains, any, count_if, is_some, is_empty, lookup, lookup-put, ap, not,
}
use k8s_diagnose.Kube.Types.{FetchStatus}
use k8s_diagnose.Kube.Commands.{
  Config, KubectlCommandSpec, spec_command, specs, commands_from, command_key, unique_from,
  unique_commands, kubectl_commands, select_key, select_keys, kubectl_commands_for_keys,
}

unique_from-count :
    (k : String) (seen : List String) (commands : List (List String))
    → count_if (λ c. command_key c == k) (unique_from seen commands)
      ≡ (if not (contains seen k) && any (λ c. command_key c == k) commands then 1 else 0)
unfolding unique_from
unique_from-count k seen [] = ground arith
unique_from-count k seen (c ∷ cs) = ground (
  arith,
  unique_from-count k seen cs,
  unique_from-count k (command_key c ∷ seen) cs,
  eq_iff (command_key c) k,
)

-- Of the commands with one joined text, `uniqueCommands` leaves exactly one, and of a text that no
-- command has, none.
pub unique_commands-count :
    (commands : List (List String)) (k : String)
    → count_if (λ c. command_key c == k) (unique_commands commands)
      ≡ (if any (λ c. command_key c == k) commands then 1 else 0)
unfolding unique_commands
unique_commands-count commands k = unique_from-count k [] commands

select_key-lookup :
    (o : Option FetchStatus) (k : String) (selected : List (String × FetchStatus)) (j : String)
    → is_some (lookup j (select_key o k selected))
      ≡ ((k == j && is_some o) || is_some (lookup j selected))
unfolding select_key
select_key-lookup none k selected j = ground arith
select_key-lookup (some s) k selected j = ground (arith, lookup-put k j s selected)

select_keys-lookup :
    (statuses : List (String × FetchStatus)) (keys : List String)
    (selected : List (String × FetchStatus)) (j : String)
    → is_some (lookup j (select_keys statuses keys selected))
      ≡ ((contains keys j && is_some (lookup j statuses)) || is_some (lookup j selected))
unfolding select_keys
select_keys-lookup statuses [] selected j = refl
select_keys-lookup statuses (k ∷ ks) selected j = ground (
  arith,
  select_keys-lookup statuses ks (select_key (lookup k statuses) k selected) j,
  select_key-lookup (lookup k statuses) k selected j,
  eq_iff k j,
  λ (e : k ≡ j). ap (λ i. is_some (lookup i statuses)) e,
)

commands_from-any :
    (cfg : Config) (statuses chosen : List (String × FetchStatus)) (keys : List String) (k : String)
    (ss : List KubectlCommandSpec)
    → ((j : String) → is_some (lookup j chosen) ≡ (contains keys j && is_some (lookup j statuses)))
    → any (λ c. command_key c == k) (commands_from cfg chosen ss)
      ≡ any
          (λ s.
            (contains keys s.key && is_some (lookup s.key statuses))
            && (command_key (spec_command cfg s.request) == k))
          ss
unfolding commands_from
commands_from-any cfg statuses chosen keys k [] h = refl
commands_from-any cfg statuses chosen keys k (s ∷ ss) h =
    ground (arith, commands_from-any cfg statuses chosen keys k ss h, h s.key)

none_from :
    (cfg : Config) (chosen : List (String × FetchStatus)) (k : String)
    (ss : List KubectlCommandSpec)
    → is_empty chosen ≡ true
    → any (λ c. command_key c == k) (commands_from cfg chosen ss) ≡ false
unfolding commands_from lookup
none_from cfg [] k [] e = refl
none_from cfg [] k (s ∷ ss) e = none_from cfg [] k ss e
none_from cfg (x ∷ xs) k ss e = cc

-- For a list of keys, there is exactly one command with a given text if a spec whose key is listed and
-- was fetched has it, and none otherwise: no command is repeated, lost or invented.
pub kubectl_commands_for_keys-count :
    (cfg : Config) (statuses : List (String × FetchStatus)) (keys : List String) (k : String)
    → count_if (λ c. command_key c == k) (kubectl_commands_for_keys cfg statuses keys) ≡ (
        if any
          (λ s.
            (contains keys s.key && is_some (lookup s.key statuses))
            && (command_key (spec_command cfg s.request) == k))
          specs
        then 1
        else 0)
unfolding kubectl_commands_for_keys kubectl_commands
kubectl_commands_for_keys-count cfg statuses keys k =
    let chosen = select_keys statuses keys [] in
    let found =
      commands_from-any cfg statuses chosen keys k specs
        (λ j. ground (arith, select_keys-lookup statuses keys [] j)) in
    let once = unique_commands-count (commands_from cfg chosen specs) k in
    ground (arith, found, once, none_from cfg chosen k specs)
