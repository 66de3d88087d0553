-- ===== src/Adapters/Nzbget/Jobs.antt =====
-- internal/adapters/nzbget.go: adding, describing, controlling, adopting and removing jobs.
pub mod Laws
use download_gateway.Prelude.{
  ℕ, Bool, true, false, Str, str, Option, none, some, List, [], ◌∷◌, ◌++◌, if◌then◌else◌, is_empty,
}
use download_gateway.Prelude.Int.{ℤ, pos, leb_ℤ}
use download_gateway.Prelude.Strings.{trim_space, atoi, itoa_ℤ}
use download_gateway.Adapters.Job.{Job, Status, JobView, AdoptedJob}
use download_gateway.Adapters.Client.{Nzbget}
use download_gateway.Adapters.Spec.{GoLib}
use download_gateway.Adapters.FileName.{payload_file_name}
use download_gateway.Adapters.Failure.{Failure, plain, Outcome, ok, fail, quoted}
use download_gateway.Adapters.Http.{Call, returns, raise, ◌>>=◌, proceed, attempt, lift}
use download_gateway.Adapters.Nzbget.{
  Group, History, in_groups, fold_group, describe_history, adopt, adopt_groups,
}
use download_gateway.Adapters.Nzbget.Json.{Param, text, number, flag, ids}
use download_gateway.Adapters.Nzbget.Calls.{Endpoint, call, append_content}

-- The name of an Add: the title, or "download".
unfoldable pub add_name : Str → Str
add_name title = let name = trim_space title in if is_empty name then str "download" else name

-- The parameters of append after the file's name and its content.
unfoldable pub add_rest : Nzbget → Job → List Param
add_rest n j =
    text (if is_empty j.category then n.category else j.category)
    ∷ number (pos 0)
    ∷ flag false
    ∷ flag false
    ∷ text []
    ∷ number (pos 0)
    ∷ text (str "FORCE")
    ∷ []

-- What the result of append says of the new job.
unfoldable pub added_id : Str → Option ℤ → Outcome Str
added_id res none = fail (plain (str "nzbget append: bad result " ++ res))
added_id res (some n) =
    if leb_ℤ n (pos 0)
    then fail (plain (str "nzbget append rejected the source (id=" ++ (itoa_ℤ n ++ str ")")))
    else ok (itoa_ℤ n)

module _ {W : Type 0} (lib : GoLib) (rpc : Endpoint W) (n : Nzbget) where
  unfoldable pub append : Job → Call W Str
  unfolding add_rest add_name
  append j =
      if is_empty j.payload
      then call rpc n (str "append")
          (text (add_name j.title ++ str ".nzb") ∷ text j.source ∷ add_rest n j)
      else append_content rpc n (payload_file_name j.payload_name (add_name j.title) (str ".nzb"))
          j.payload (add_rest n j)

  -- Add
  unfoldable pub add : Job → Call W Str
  unfolding append added_id
  add j = do res ← append j; lift (added_id res (rpc.nzb_id res))

  unfoldable pub list_groups : Call W (List Group)
  list_groups = do res ← call rpc n (str "listgroups") (number (pos 0) ∷ []); lift (rpc.groups res)

  unfoldable pub list_history : Call W (List History)
  list_history = do res ← call rpc n (str "history") (flag false ∷ []); lift (rpc.history res)

  ask_history : Str → Outcome (List Group) → Option Group → Call W JobView
  unfolding list_history
  ask_history id groups (some g) = returns (fold_group g)
  ask_history id groups none = do
    history ← attempt list_history
    lift (describe_history id groups history)

  -- Describe: the history is asked for only if the queue does not have the job.
  unfoldable pub describe_job : Str → Call W JobView
  unfolding list_groups ask_history
  describe_job id = do
    groups ← attempt list_groups
    ask_history id groups (in_groups (atoi id).0 groups)

  -- Status
  unfoldable pub status : Str → Call W Status
  unfolding describe_job
  status id = do v ← describe_job id; returns v.state

  -- edit
  unfoldable pub edit : Str → Str → Call W (Unit {0})
  edit id command =
      if (atoi id).1
      then call rpc n (str "editqueue")
          (text command ∷ number (pos 0) ∷ text [] ∷ ids ((atoi id).0 ∷ []) ∷ [])
        >>= (λ res. returns tt)
      else raise (plain (str "nzbget " ++ (command ++ (str ": bad id " ++ quoted lib id))))

  -- Pause and Resume
  unfoldable pub pause : Str → Call W (Unit {0})
  unfolding edit
  pause id = edit id (str "GroupPause")

  unfoldable pub resume : Str → Call W (Unit {0})
  unfolding edit
  resume id = edit id (str "GroupResume")

  remove_from : Str → ℤ → Call W Str
  remove_from command id =
      call rpc n (str "editqueue") (text command ∷ number (pos 0) ∷ text [] ∷ ids (id ∷ []) ∷ [])

  else_history : ℤ → Outcome Str → Call W (Unit {0})
  unfolding remove_from
  else_history id (ok res) = returns tt
  else_history id (fail f) = remove_from (str "HistoryDelete") id >>= (λ res. returns tt)

  -- Remove
  unfoldable pub remove : Str → Call W (Unit {0})
  unfolding remove_from else_history
  remove id =
      if (atoi id).1
      then (do
        r ← attempt (remove_from (str "GroupFinalDelete") (atoi id).0)
        else_history (atoi id).0 r)
      else raise (plain (str "nzbget remove: bad id " ++ quoted lib id))

  -- Adopt: without a category nothing is owned, and the client is not asked.
  unfoldable pub adopt_jobs : Call W (List AdoptedJob)
  adopt_jobs = if is_empty n.category then returns [] else (do
    res ← call rpc n (str "listgroups") (number (pos 0) ∷ [])
    groups ← lift (rpc.own_groups res)
    returns (adopt_groups n.category groups))
