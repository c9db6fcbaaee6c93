-- ===== src/Queue/Valid/Servers.antt =====
-- registry.py: the check of a job's prepared servers, on servers that passed it.
use codex_remote_runner.Prelude.{
  ltb, is_empty, any, contains, string_eq, ◌==◌, ◌>>=◌, nat_eq, value_error, ok, raise_if,
  >>=-eq-ok, >>=-ok, ok_injective, passed, get_or, is_none, String, ◌≡◌, refl, sym, ap, ◌∙◌, subst,
  Bool, ◌||◌, some, List, [], ◌∷◌,
}
use codex_remote_runner.Text.{codes}
use codex_remote_runner.OutputPaths.{normalize_output_root, normalize_output_root-same}
use codex_remote_runner.Machines.Identity.{Server, normalize_server_identity}
use codex_remote_runner.Queue.Job.{
  Job, server_names, workload_eq, priority_eq, required_cores, is_some_zero, check_server,
  check_servers,
}
use codex_remote_runner.Queue.Valid.Identities.{
  normalize_server_identity-again, normalize_server_identity-form, identified_as,
}

-- A server that the check gave, and the one that it was given for.
abbrev IsChecked : Job → List String → Server → Server → Type 0
IsChecked job names item server =
    (check_server job names server ≡ ok server)
    × (server.name ≡ item.name)
    × (server.output_root ≡ item.output_root)

abbrev texts : Server → List String
texts item =
    item.name ∷ item.ssh ∷ item.ssh_profile ∷ item.bare_repo ∷ item.worktree_root ∷ item.python ∷ []

check_server-IsChecked :
    (job : Job) (names : List String) (item server : Server)
    → check_server job names item ≡ ok server
    → IsChecked job names item server
unfolding check_server
check_server-IsChecked job names item server h =
    let (a, h1) = passed (any (λ s. is_empty (codes s)) (texts item)) _ _ h in
    let (b, h2) = passed (contains names item.name) _ _ h1 in
    let (identity, n, h3) = >>=-eq-ok (normalize_server_identity item) _ h2 in
    let (m, h4) = passed (is_some_zero item.configured_memory_gb) _ _ h3 in
    let (c, h5) = passed (item.configured_cores == 0) _ _ h4 in
    let (d, h6) = passed (ltb item.configured_cores (required_cores job)) _ _ h5 in
    let (output_root, r, h7) = >>=-eq-ok (normalize_output_root item.output_root) _ h6 in
    let (id, source, fingerprint, form) = normalize_server_identity-form item identity n in
    let known = identified_as item id source fingerprint in
    let given =
      ap (λ x. record known { output_root = x; test_slots = some (get_or item.test_slots 0) })
        (normalize_output_root-same item.output_root output_root r)
      ∙ ap
          (λ (k : Server). record k {
            output_root = output_root;
            test_slots = some (get_or k.test_slots 0);
          })
          (sym form) in
    subst (IsChecked job names item) (given ∙ ok_injective _ _ h7) (
      >>=-ok _
            (ap (λ x. raise_if x (value_error "queued prepared server field must be a string")) a)
          ∙ >>=-ok _ (ap (λ x. raise_if x (value_error "duplicate queued prepared server")) b)
          ∙ >>=-ok _ (
              normalize_server_identity-again item known (some (get_or item.test_slots 0))
                (n ∙ ap ok form))
          ∙ >>=-ok _ (
              ap
                (λ x. raise_if x (
                  value_error
                    "queued prepared server configured_memory_gb must be positive or null"))
                m)
          ∙ >>=-ok _ (
              ap
                (λ x.
                  raise_if x
                    (value_error "queued prepared server configured_cores must be positive"))
                c)
          ∙ >>=-ok _ (
              ap
                (λ x.
                  raise_if x
                    (value_error "queued prepared server has fewer than the required cores"))
                d)
          ∙ >>=-ok _ (r ∙ ap ok (sym (normalize_output_root-same item.output_root output_root r))),
      refl,
      refl,
    )

-- Whether a server lacks the root of its outputs.
abbrev pub rootless : List Server → Bool
rootless = any λ s. is_none s.output_root

pub check_servers-again :
    (job : Job) (names : List String) (items servers : List Server)
    → check_servers job names items ≡ ok servers
    → (check_servers job names servers ≡ ok servers)
      × (server_names servers ≡ server_names items)
      × (rootless servers ≡ rootless items)
unfolding check_servers
check_servers-again job names [] servers h =
    subst
      (λ x.
        (check_servers job names x ≡ ok x)
        × (server_names x ≡ server_names [])
        × (rootless x ≡ rootless []))
      (ok_injective _ _ h) (refl, refl, refl)
check_servers-again job names (item ∷ items) servers h =
    let (server, one, h1) = >>=-eq-ok (check_server job names item) _ h in
    let (others, rest, h2) = >>=-eq-ok (check_servers job (item.name ∷ names) items) _ h1 in
    let (again, same_name, same_root) = check_server-IsChecked job names item server one in
    let (again_rest, same_names, same_roots) =
      check_servers-again job (item.name ∷ names) items others rest in
    subst
      (λ x.
        (check_servers job names x ≡ ok x)
        × (server_names x ≡ server_names (item ∷ items))
        × (rootless x ≡ rootless (item ∷ items)))
      (ok_injective _ _ h2)
      (
        >>=-ok _ again
            ∙ >>=-ok _ (ap (λ n. check_servers job (n ∷ names) others) same_name ∙ again_rest),
        ap (λ n. n ∷ server_names others) same_name ∙ ap (λ ns. item.name ∷ ns) same_names,
        ap (λ r. is_none r || rootless others) same_root
            ∙ ap (λ b. is_none item.output_root || b) same_roots,
      )

check_server-same :
    (job other : Job) (names : List String) (item : Server)
    → required_cores other ≡ required_cores job
    → check_server other names item ≡ check_server job names item
unfolding check_server
check_server-same job other names item h = rw (check_server, h) refl

-- Of the job the check of the servers reads the cores alone.
pub check_servers-same :
    (job other : Job) (names : List String) (items : List Server)
    → required_cores other ≡ required_cores job
    → check_servers other names items ≡ check_servers job names items
unfolding check_servers
check_servers-same job other names [] h = refl
check_servers-same job other names (item ∷ items) h =
    ap
      (λ r. r >>= λ server.
        check_servers other (item.name ∷ names) items >>= λ rest. ok (server ∷ rest))
      (check_server-same job other names item h)
    ∙ ap (λ r. check_server job names item >>= λ server. r >>= λ rest. ok (server ∷ rest))
        (check_servers-same job other (item.name ∷ names) items h)
