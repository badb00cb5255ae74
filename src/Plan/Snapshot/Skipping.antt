-- ===== src/Plan/Snapshot/Skipping.antt =====
-- internal/plan/derive.go, `Skipping`: leaving repositories out of a snapshot.
use command_center.Prelude.{
  ℕ, ◌≤◌, ◌<◌, String, ◌≡◌, refl, ap, ◌∙◌, ◌⊎◌, inl, inr, Bool, false, not, ◌&&◌, Option, none,
  some, List, [], ◌∷◌, ◌++◌, arith, if◌then◌else◌, Bool-cases, Option-cases, length, get_elem?,
  select, find_first, is_empty, length-append, ◌==◌, nat_eq, string_eq, Map, lookup, insert, get_or,
  lookup-insert,
}
use command_center.Prelude.{get_elem?-append, get_elem?-end}
use command_center.Plan.Ids.{TicketUrl}
use command_center.Plan.Input.{Entry}
use command_center.Plan.Snapshot.{Snapshot, entry, keep_entries, skipping}

-- The entry at a position, if there is one.
abbrev read_at : List Entry → Option ℕ → Option Entry
read_at es none = none
read_at es (some n) = get_elem? es n

-- The positions that a map holds are positions of entries.
abbrev Indexes : List Entry × Map TicketUrl ℕ → Type 0
Indexes (es, by_url) = (u : TicketUrl) (n : ℕ) → lookup u by_url ≡ some n → n < length es

-- The entry of a URL in a repository that is not left out.
abbrev pub is_kept : Map String Bool → TicketUrl → Entry → Bool
is_kept repos u e = e.ticket.url == u && not (get_or e.ticket.repo false repos)

abbrev pub entries_with : TicketUrl → List Entry → ℕ
entries_with u es = length (select (λ (e : Entry). e.ticket.url == u) es)

abbrev kept_or : Option Entry → Option Entry → Option Entry
kept_or none old = old
kept_or (some e) old = some e

add_Indexes :
    (es : List Entry) (by_url : Map TicketUrl ℕ) (e : Entry)
    → Indexes (es, by_url)
    → Indexes (es ++ e ∷ [], insert e.ticket.url (length es) by_url)
add_Indexes es by_url e good u n k =
    ground
      (arith, good u n, lookup-insert e.ticket.url u (length es) by_url, length-append es (e ∷ []))

add_read_at :
    (es : List Entry) (by_url : Map TicketUrl ℕ) (e : Entry) (u : TicketUrl)
    → Indexes (es, by_url)
    → read_at (es ++ e ∷ []) (lookup u (insert e.ticket.url (length es) by_url))
      ≡ (if e.ticket.url == u then some e else read_at es (lookup u by_url))
add_read_at es by_url e u good =
    rw (lookup-insert e.ticket.url u (length es) by_url) (elim (Bool-cases (e.ticket.url == u)) [
      | inl y ↦ rw y (get_elem?-end es e)
      | inr z ↦ rw z (old (Option-cases (lookup u by_url)))
    ])
  where
    old :
        (lookup u by_url ≡ none) ⊎ ((n : ℕ) × (lookup u by_url ≡ some n))
        → read_at (es ++ e ∷ []) (lookup u by_url) ≡ read_at es (lookup u by_url)
    old (inl n) = rw n refl
    old (inr (n, k)) = rw k (get_elem?-append es (e ∷ []) n (good u n k))

absent-kept :
    (repos : Map String Bool) (u : TicketUrl) (es : List Entry)
    → entries_with u es ≡ 0
    → find_first (is_kept repos u) es ≡ none
absent-kept repos u [] c = refl
absent-kept repos u (e ∷ es) c = ground (arith, absent-kept repos u es)

keep_entries-read :
    (repos : Map String Bool) (es out : List Entry) (by_url : Map TicketUrl ℕ) (u : TicketUrl)
    → Indexes (out, by_url)
    → entries_with u es ≤ 1
    → read_at
        (keep_entries repos es (out, by_url)).0
        (lookup u (keep_entries repos es (out, by_url)).1)
      ≡ kept_or (find_first (is_kept repos u) es) (read_at out (lookup u by_url))
unfolding keep_entries
keep_entries-read repos [] out by_url u good c = refl
keep_entries-read repos (e ∷ es) out by_url u good c =
    elim (Bool-cases (get_or e.ticket.repo false repos)) [
      | inl y ↦ rw y (
          keep_entries-read repos es out by_url u good (ground arith)
          ∙ ap (λ x. kept_or x (read_at out (lookup u by_url))) (ground arith))
      | inr z ↦ rw z (
          keep_entries-read repos es (out ++ e ∷ []) (insert e.ticket.url (length out) by_url) u
            (add_Indexes out by_url e good) (ground arith)
          ∙ rw (add_read_at out by_url e u good) (elim (Bool-cases (e.ticket.url == u)) [
            | inl k ↦ rw k (ap (λ x. kept_or x (some e)) (absent-kept repos u es (ground arith)))
            | inr k ↦ rw k refl
          ]))
    ]

kept_or-none : (x : Option Entry) → kept_or x none ≡ x
kept_or-none none = refl
kept_or-none (some e) = refl

-- Where repositories are left out, and an URL belongs to at most one entry, the smaller snapshot reads at
-- the URL the entry that the list has, if its repository is not left out.
pub skipping-entry :
    (s : Snapshot) (repos : Map String Bool) (u : TicketUrl)
    → is_empty repos ≡ false
    → entries_with u s.entries ≤ 1
    → entry (skipping s repos) u ≡ find_first (is_kept repos u) s.entries
unfolding skipping entry lookup
skipping-entry s repos u n c = rw n (
    keep_entries-read repos s.entries [] [] u (λ v m e. ground (arith, e)) c
    ∙ kept_or-none (find_first (is_kept repos u) s.entries))
