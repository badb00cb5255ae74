-- ===== src/Loop/Push/Sent.antt =====
-- internal/loop/push.go: what `pushOne` sends to origin.
use command_center.Prelude.{
  ℕ, String, ◌⧺◌, ◌≡◌, ◌≢◌, refl, ap, ◌∙◌, ◌⊎◌, inl, inr, Bool, true, false, not, ◌||◌, Option,
  none, some, List, [], ◌∷◌, ◌++◌, append_assoc, arith, if◌then◌else◌, every, unwrap_or, string_eq,
  ◌==◌, ◌!=◌, ==_iff, Map, lookup, trim_space,
}
use command_center.Plan.Ids.{TicketUrl, Sha, branch_ref_eq}
use command_center.Plan.Ticket.{ref, opened, pr_state_eq}
use command_center.Plan.Push.{push_refused}
use command_center.Plan.Observation.{pr_at}
use command_center.Plan.Input.{Entry, RunSummary}
use command_center.Plan.Gates.{Push}
use command_center.Store.Db.{Result, ok, err, ◌>>=◌, ◌>>◌, pure, raise, then_on}
use command_center.Store.Runs.{latest_runs_by_ticket}
use command_center.Store.Pushes
use command_center.Store.Pushes.{record_push}
use command_center.Store.Events.{event_push_failed, event_push_refused, event_pushed}
use command_center.Loop.Machine.{
  LoopState, Act, Done, Outside, Config, Call, changed_paths, push_plain, push_restacked,
  is_ancestor, rev_parse, create_pr, read_file, in_store, ask, or_fail, attempt, called, get_state,
  now, event, checkout, run_file, settings_of,
}
use command_center.Loop.Calls.{
  Only, calls_kept, calls_joined, bind-Only, if-Only, in_store-Only, now-Only, event-Only,
  event-calls, ask-Only, attempt-Only,
}
use command_center.Loop.Push.{
  last_pushed, push_branch, push_one, push_unless_refused, push_allowed, record_pushed,
  or_push_failed, open_request, create_request, pr_body, body_with, read_handoff, read_content,
  run_id_of, with_handoff, pushed_detail, restacked_push, plain_push,
}

-- The calls that do not push.
abbrev pub keeps_origin : Call → Bool
keeps_origin (push_plain repo branch) = false
keeps_origin (push_restacked repo branch tip) = false
keeps_origin c = true

module _ (o : Outside) (c : Config) where
  read_handoff-Only : (id : ℕ) → Only keeps_origin (read_handoff o c id)
  unfolding read_handoff
  read_handoff-Only id =
      bind-Only keeps_origin (attempt (read_file (run_file c id "handoff.md")) o.content)
        (λ answer. pure (read_content answer))
        (attempt-Only keeps_origin (read_file (run_file c id "handoff.md")) o.content refl)
        (λ answer s. calls_kept keeps_origin s s refl)

  body_with-Only :
      (url : TicketUrl) (stacked : String) (r : Result (Map TicketUrl RunSummary))
      → Only keeps_origin (body_with o c url stacked r)
  body_with-Only url stacked (err e) = λ s. calls_kept keeps_origin s s refl
  body_with-Only url stacked (ok latest) =
      bind-Only keeps_origin (read_handoff o c (run_id_of (lookup url latest)))
        (λ handoff. pure (with_handoff stacked (trim_space (unwrap_or handoff ""))))
        (read_handoff-Only (run_id_of (lookup url latest)))
        (λ handoff s. calls_kept keeps_origin s s refl)

  pr_body-Only : (url : TicketUrl) (stacked : String) → Only keeps_origin (pr_body o c url stacked)
  unfolding pr_body
  pr_body-Only url stacked s =
      let r : Result (Map TicketUrl RunSummary) × LoopState = in_store latest_runs_by_ticket s in
      calls_joined keeps_origin s r.1 (pr_body o c url stacked s).1
        (calls_kept keeps_origin s r.1 refl) (body_with-Only url stacked r.0 r.1)

  abbrev push_row_at : Entry → Push → Sha → ℕ → Pushes.Push
  push_row_at e p base_sha at = record {
    ticket = e.ticket.url;
    tip = p.local_tip;
    base_sha = base_sha;
    base_branch = e.unlock.base_branch;
    at = at;
  }

  record_pushed-Only : (e : Entry) (p : Push) → Only keeps_origin (record_pushed o c e p)
  record_pushed-Only e p =
      let base = e.unlock.base_branch in
      let base_ref = rev_parse (checkout c e.ticket.repo) ("origin/" ⧺ base) in
      let told : Act Unit = event o e.ticket.url event_pushed (pushed_detail p.local_tip base) in
      let saved : Sha → ℕ → Act Unit = λ sha at. in_store (record_push (push_row_at e p sha at)) in
      bind-Only keeps_origin (ask base_ref o.sha) (λ sha. now o >>= λ at. saved sha at >> told)
        (ask-Only keeps_origin base_ref o.sha refl)
        (λ sha.
          bind-Only keeps_origin (now o) (λ at. saved sha at >> told) (now-Only keeps_origin o)
            (λ at.
              bind-Only keeps_origin (saved sha at) (λ _. told)
                (in_store-Only keeps_origin (record_push (push_row_at e p sha at)))
                (λ _.
                  event-Only keeps_origin o e.ticket.url event_pushed
                    (pushed_detail p.local_tip base))))

  or_push_failed-Only :
      (e : Entry) (next : Act Unit) (r : Done)
      → Only keeps_origin next
      → Only keeps_origin (or_push_failed o c e next r)
  or_push_failed-Only e next (inl failed) h =
      event-Only keeps_origin o e.ticket.url event_push_failed failed
  or_push_failed-Only e next (inr _) h = h

  create_request-Only : (e : Entry) (p : Push) → Only keeps_origin (create_request o c e p)
  create_request-Only e p s =
      let create : String → Call = λ body.
        create_pr (unwrap_or (lookup (ref e.ticket) s.obs.worktrees) "") e.unlock.base_branch body
          p.opens_as_draft in
      bind-Only keeps_origin (pr_body o c e.ticket.url p.body)
        (λ body. attempt (create body) o.done >>= or_push_failed o c e (record_pushed o c e p))
        (pr_body-Only e.ticket.url p.body)
        (λ body.
          bind-Only keeps_origin (attempt (create body) o.done)
            (or_push_failed o c e (record_pushed o c e p))
            (attempt-Only keeps_origin (create body) o.done refl)
            (λ r. or_push_failed-Only e (record_pushed o c e p) r (record_pushed-Only e p)))
        s

  open_request-Only : (e : Entry) (p : Push) → Only keeps_origin (open_request o c e p)
  open_request-Only e p s =
      if-Only keeps_origin ((pr_at s.obs (ref e.ticket)).state != opened) (create_request o c e p)
        (record_pushed o c e p) (create_request-Only e p) (record_pushed-Only e p) s

  -- The calls of `pushBranch` after those before it.
  pub data BranchRun (repo branch : String) (tip : Sha) (restacked : Bool) (before : List Call)
      : List Call → Type 0 where
    plain :
        (not restacked || tip == "") ≡ true
        → BranchRun repo branch tip restacked before (push_plain repo branch ∷ [])
    unknown :
        (x : String)
        → o.flag (before ++ is_ancestor repo tip branch ∷ []) ≡ inl x
        → BranchRun repo branch tip restacked before (is_ancestor repo tip branch ∷ [])
    descended :
        o.flag (before ++ is_ancestor repo tip branch ∷ []) ≡ inr true
        → BranchRun repo branch tip restacked before
            (is_ancestor repo tip branch ∷ push_plain repo branch ∷ [])
    forced :
        restacked ≡ true
        → tip ≢ ""
        → o.flag (before ++ is_ancestor repo tip branch ∷ []) ≡ inr false
        → BranchRun repo branch tip restacked before
            (is_ancestor repo tip branch ∷ push_restacked repo branch tip ∷ [])

  -- The state after `pushBranch` has asked and pushed.
  abbrev pub Branched : String → String → Sha → Bool → LoopState → Result Done × LoopState → Type 0
  Branched repo branch tip restacked s r =
      (cs : List Call) × (r.1.calls ≡ s.calls ++ cs)
      × BranchRun repo branch tip restacked s.calls cs

  restacked_push-Branched :
      (repo branch : String) (tip : Sha) (restacked : Bool) (s : LoopState) (r : String ⊎ Bool)
      → restacked ≡ true
      → tip ≢ ""
      → o.flag (s.calls ++ is_ancestor repo tip branch ∷ []) ≡ r
      → Branched repo branch tip restacked s
          (restacked_push o c repo branch tip r (called (is_ancestor repo tip branch) s))
  restacked_push-Branched repo branch tip restacked s (inl x) h k e =
      (is_ancestor repo tip branch ∷ [], refl, unknown x e)
  restacked_push-Branched repo branch tip restacked s (inr true) h k e = (
    is_ancestor repo tip branch ∷ push_plain repo branch ∷ [],
    append_assoc s.calls (is_ancestor repo tip branch ∷ []) (push_plain repo branch ∷ []),
    descended e,
  )
  restacked_push-Branched repo branch tip restacked s (inr false) h k e = (
    is_ancestor repo tip branch ∷ push_restacked repo branch tip ∷ [],
    append_assoc s.calls (is_ancestor repo tip branch ∷ []) (push_restacked repo branch tip ∷ []),
    forced h k e,
  )

  push_branch-Branched :
      (repo branch : String) (tip : Sha) (restacked : Bool) (s : LoopState)
      → Branched repo branch tip restacked s (push_branch o c repo branch tip restacked s)
  unfolding push_branch
  push_branch-Branched repo branch tip restacked s = by_test (not restacked || tip == "") refl
    where
      by_test :
          (b : Bool)
          → (not restacked || tip == "") ≡ b
          → Branched repo branch tip restacked s (
              (if b
                  then plain_push o c repo branch
                  else attempt (is_ancestor repo tip branch) o.flag
                    >>= restacked_push o c repo branch tip)
                s)
      by_test true e = (push_plain repo branch ∷ [], refl, plain e)
      by_test false e =
          restacked_push-Branched repo branch tip restacked s
            (o.flag (s.calls ++ is_ancestor repo tip branch ∷ [])) (ground (arith, e))
            (λ k. ground (arith, e, (==_iff tip "").1 k)) refl

  -- The call that lists the paths, and what follows it.
  abbrev pub diff_call : Entry → Call
  diff_call e =
      changed_paths (checkout c e.ticket.repo) ("origin/" ⧺ e.unlock.base_branch) e.ticket.branch

  abbrev pub refused_path : LoopState → Entry → List String → Option String
  refused_path s e changed =
      push_refused changed (record { deny = (settings_of s.obs e.ticket.repo).deny })

  pub data Sent (e : Entry) (p : Push) (s : LoopState) : List Call → Type 0 where
    unread :
        (x : String) → o.texts (s.calls ++ diff_call e ∷ []) ≡ inl x → Sent e p s (diff_call e ∷ [])
    refused :
        (changed : List String) (path : String)
        → o.texts (s.calls ++ diff_call e ∷ []) ≡ inr changed
        → refused_path s e changed ≡ some path
        → Sent e p s (diff_call e ∷ [])
    sent :
        (changed : List String) (bs after : List Call)
        → o.texts (s.calls ++ diff_call e ∷ []) ≡ inr changed
        → refused_path s e changed ≡ none
        → BranchRun
            (checkout c e.ticket.repo)
            e.ticket.branch
            (last_pushed e)
            p.force
            (s.calls ++ diff_call e ∷ [])
            bs
        → every keeps_origin after ≡ true
        → Sent e p s (diff_call e ∷ bs ++ after)

  abbrev pub SentFrom : Entry → Push → LoopState → LoopState → Type 0
  SentFrom e p s t = (cs : List Call) × (t.calls ≡ s.calls ++ cs) × Sent e p s cs

  branched-SentFrom :
      (e : Entry) (p : Push) (s t : LoopState) (changed : List String) (bs : List Call)
      (next : Act Unit)
      → o.texts (s.calls ++ diff_call e ∷ []) ≡ inr changed
      → refused_path s e changed ≡ none
      → BranchRun
          (checkout c e.ticket.repo)
          e.ticket.branch
          (last_pushed e)
          p.force
          (s.calls ++ diff_call e ∷ [])
          bs
      → t.calls ≡ (s.calls ++ diff_call e ∷ []) ++ bs
      → Only keeps_origin next
      → SentFrom e p s (next t).1
  branched-SentFrom e p s t changed bs next read allowed run k h =
      let (after, l, only) = h t in
      (
        diff_call e ∷ bs ++ after,
        l
            ∙ ap (λ cs. cs ++ after) k
            ∙ append_assoc (s.calls ++ diff_call e ∷ []) bs after
            ∙ append_assoc s.calls (diff_call e ∷ []) (bs ++ after),
        sent changed bs after read allowed run only,
      )

  push_allowed-SentFrom :
      (e : Entry) (p : Push) (s : LoopState) (changed : List String)
      → o.texts (s.calls ++ diff_call e ∷ []) ≡ inr changed
      → refused_path s e changed ≡ none
      → SentFrom e p s (push_allowed o c e p (called (diff_call e) s)).1
  push_allowed-SentFrom e p s changed read allowed =
      let repo = checkout c e.ticket.repo in
      let r : Result Done × LoopState =
        push_branch o c repo e.ticket.branch (last_pushed e) p.force (called (diff_call e) s) in
      let (bs, k, run) =
        push_branch-Branched repo e.ticket.branch (last_pushed e) p.force
          (called (diff_call e) s) in
      after_push r.0 r.1 bs k run
    where
      after_push :
          (r : Result Done) (t : LoopState) (bs : List Call)
          → t.calls ≡ (s.calls ++ diff_call e ∷ []) ++ bs
          → BranchRun
              (checkout c e.ticket.repo)
              e.ticket.branch
              (last_pushed e)
              p.force
              (s.calls ++ diff_call e ∷ [])
              bs
          → SentFrom e p s (then_on (or_push_failed o c e (open_request o c e p)) (r, t)).1
      after_push (ok d) t bs k run =
          branched-SentFrom e p s t changed bs (or_push_failed o c e (open_request o c e p) d) read
            allowed run k (or_push_failed-Only e (open_request o c e p) d (open_request-Only e p))
      after_push (err x) t bs k run =
          branched-SentFrom e p s t changed bs (raise x) read allowed run k
            (λ u. calls_kept keeps_origin u u refl)

  -- The calls that `pushOne` adds are one of these: the list of changed paths alone, where it cannot
  -- be read or a path is refused, or else that list, the push, and calls that do not push. The push is
  -- a plain one where the branch is not restacked or was never pushed; of a restacked branch git is
  -- first asked whether it descends from the tip that was pushed last, and it is pushed plainly where
  -- it does, by force at the recorded tip where it does not, and not at all where git cannot say.
  pub push_one-Sent :
      (e : Entry) (p : Push) (s : LoopState)
      → (cs : List Call) × ((push_one o c e p s).1.calls ≡ s.calls ++ cs) × Sent e p s cs
  unfolding push_one
  push_one-Sent e p s = by_answer (o.texts (s.calls ++ diff_call e ∷ [])) refl
    where
      by_answer :
          (r : String ⊎ List String)
          → o.texts (s.calls ++ diff_call e ∷ []) ≡ r
          → SentFrom e p s
              (then_on
                (λ changed. get_state >>= λ u.
                  push_unless_refused o c e p (
                    push_refused changed
                      (record { deny = (settings_of u.obs e.ticket.repo).deny })))
                (or_fail r (called (diff_call e) s))).1
      by_answer (inl x) read = (diff_call e ∷ [], refl, unread x read)
      by_answer (inr changed) read = by_path (refused_path s e changed) refl
        where
          by_path :
              (x : Option String)
              → refused_path s e changed ≡ x
              → SentFrom e p s (push_unless_refused o c e p x (called (diff_call e) s)).1
          by_path (some path) k = (
            diff_call e ∷ [],
            event-calls o e.ticket.url event_push_refused path (called (diff_call e) s),
            refused changed path read k,
          )
          by_path none k = push_allowed-SentFrom e p s changed read k
