-- ===== src/Plan/Preview.antt =====
-- internal/plan/preview.go: what a launch of a selection would do. `hash` is SHA-256 in hexadecimal.
pub mod Promise
use command_center.Prelude.{
  ℕ, String, ◌⧺◌, decimal, ◌⊎◌, inl, inr, Bool, true, false, not, Option, none, some, List, [], ◌∷◌,
  map, if◌then◌else◌, find_first, ◌==◌, ◌!=◌, nat_eq, string_eq, Map, insert, get_or,
}
use command_center.Plan.Ids.{TicketUrl, Reason}
use command_center.Plan.Ticket.{Ticket, Unlock, default_base_branch}
use command_center.Plan.Status.{RunFact, conflicted_base_reason}
use command_center.Plan.Compose.{compose}
use command_center.Plan.Input.{Entry}
use command_center.Plan.Snapshot.{Snapshot, entry}

pub data PreviewLabel : Type 0 where
  now on_unlock refused : PreviewLabel

unfoldable pub label_string : PreviewLabel → String
label_string now = "now"
label_string on_unlock = "on unlock"
label_string refused = "refused"

-- The first blocker outside the slice.
unfoldable pub outside : Map TicketUrl Bool → List TicketUrl → Option TicketUrl
outside slice blocking = find_first (λ u. not (get_or u false slice)) blocking

unfoldable pub preview_label : Unlock → Map TicketUrl Bool → ℕ → String → PreviewLabel × Reason
preview_label unlock slice active_launch conflicted_base =
    if active_launch != 0
    then (refused, "already authorised in launch " ⧺ decimal active_launch)
    else if conflicted_base != ""
    then (refused, conflicted_base_reason conflicted_base)
    else if unlock.unlocked
    then (now, unlock.reason)
    else elim (outside slice unlock.blocking) [
      | some blocker ↦ (
        refused,
        "blocked by " ⧺ blocker ⧺ ", which has no open or merged pull request outside this slice",
      )
      | none ↦ (on_unlock, unlock.reason)
    ]

pub record PreviewRow : Type 0 where
  pub ticket : Ticket
  pub label : PreviewLabel
  pub reason : Reason
  pub base : String
  pub base_run : Option RunFact
  pub prompt : String
  pub prompt_hash : String

unfoldable pub base_run : Snapshot → String → Option RunFact
base_run s base =
    if base == default_base_branch
    then none
    else elim (find_first (λ (e : Entry). e.ticket.branch == base) s.entries) [
      | none ↦ none
      | some e ↦ e.run
    ]

-- The entries of a selection; on the left, the first ticket that is unknown.
unfoldable pub selected_entries : Snapshot → List TicketUrl → TicketUrl ⊎ List Entry
selected_entries s [] = inr []
selected_entries s (u ∷ us) =
    let rest = selected_entries s us in
    elim (entry s u) [ none ↦ inl u | some e ↦ elim rest [ inl v ↦ inl v | inr es ↦ inr (e ∷ es) ] ]

unfoldable pub slice_of : List TicketUrl → Map TicketUrl Bool
slice_of [] = []
slice_of (u ∷ us) = insert u true (slice_of us)

module _ (hash : String → String) (s : Snapshot) where
  unfoldable pub preview_row : Map TicketUrl Bool → String → Entry → PreviewRow
  unfolding preview_label base_run
  preview_row slice launch_context e =
      let (label, reason) = preview_label e.unlock slice e.launch_id e.conflicted_base in
      let prompt = compose (record e.ticket { launch_context = launch_context }) in
      record {
        ticket = e.ticket;
        label = label;
        reason = reason;
        base = e.base;
        base_run = base_run s e.base;
        prompt = prompt;
        prompt_hash = hash prompt;
      }

  -- On the left, the ticket of the error `ErrUnknownTicket`.
  unfoldable pub preview : List TicketUrl → String → TicketUrl ⊎ List PreviewRow
  unfolding selected_entries preview_row
  preview selection launch_context = elim (selected_entries s selection) [
    | inl u ↦ inl u
    | inr es ↦ inr (map (preview_row (slice_of selection) launch_context) es)
  ]
