-- ===== src/Queue/Extend/Laws.antt =====
-- registry.py: the merge of prepared servers in `extend_queued_job`.
use codex_remote_runner.Prelude.{
  if◌then◌else◌, Bool-cases, contains, distinct, contains-append, nat_eq, string_eq, String, ◌≡◌,
  refl, ◌∙◌, inl, inr, true, false, List, [], ◌∷◌, ◌++◌, append-nil, append_assoc, arith,
}
use codex_remote_runner.Machines.Identity.{Server}
use codex_remote_runner.Queue.Job.{server_names, workload_eq, priority_eq}
use codex_remote_runner.Queue.State.{status_eq}
use codex_remote_runner.Queue.Extend.{merge_servers}

-- What follows the servers that were there.
abbrev pub new_servers : List String → List Server → List Server
new_servers names [] = []
new_servers names (server ∷ additions) =
    if contains names server.name
    then new_servers names additions
    else server ∷ new_servers (names ++ (server.name ∷ [])) additions

server_names-append :
    (xs ys : List Server) → server_names (xs ++ ys) ≡ server_names xs ++ server_names ys
server_names-append [] ys = refl
server_names-append (x ∷ xs) ys = rw (server_names-append xs ys)

-- Merging keeps the prepared servers as they are, in front, and adds after them each server of a
-- new name once, in the order given.
pub merge_servers-eq-append :
    (merged additions : List Server)
    → merge_servers merged additions ≡ merged ++ new_servers (server_names merged) additions
merge_servers-eq-append merged [] = rw append-nil
merge_servers-eq-append merged (server ∷ additions) =
    elim (Bool-cases (contains (server_names merged) server.name)) [
      | inl old ↦ rw old (merge_servers-eq-append merged additions)
      | inr fresh ↦ rw fresh (
          merge_servers-eq-append (merged ++ (server ∷ [])) additions
          ∙ rw (server_names-append merged (server ∷ []), append_assoc))
    ]

distinct-snoc :
    (xs : List String) (x : String)
    → distinct xs ≡ true
    → contains xs x ≡ false
    → distinct (xs ++ (x ∷ [])) ≡ true
distinct-snoc [] x d c = refl
distinct-snoc (y ∷ xs) x d c = ground (
  arith,
  contains-append xs (x ∷ []) y,
  distinct-snoc xs x,
  string_eq.beq_iff x y,
  string_eq.beq_iff y x,
)

-- If no two servers of a job share a name, no two share one after the merge of any additions.
pub merge_servers-distinct :
    (merged additions : List Server)
    → distinct (server_names merged) ≡ true
    → distinct (server_names (merge_servers merged additions)) ≡ true
merge_servers-distinct merged [] d = d
merge_servers-distinct merged (server ∷ additions) d =
    elim (Bool-cases (contains (server_names merged) server.name)) [
      | inl old ↦ rw old (merge_servers-distinct merged additions d)
      | inr fresh ↦ rw fresh (
          merge_servers-distinct (merged ++ (server ∷ [])) additions (
            rw (server_names-append merged (server ∷ []))
              (distinct-snoc (server_names merged) server.name d fresh)))
    ]
