-- ===== src/Adapters/Qbittorrent/Jobs/Requests.antt =====
-- How many requests the calls make.
use native.Mathlib.Omega.{arith}
use download_gateway.Prelude.{
  ℕ, ◌+◌, ◌*◌, ◌≤◌, subst, length, Str, str, Option, none, some, List, [], ◌∷◌, ◌++◌,
}
use download_gateway.Adapters.Job.{Job}
use download_gateway.Adapters.Client.{Qbittorrent}
use download_gateway.Adapters.Spec.{GoLib}
use download_gateway.Adapters.Failure.{Failure}
use download_gateway.Adapters.Http.{form, Request, Response, Call}
use download_gateway.Adapters.Http.Laws.{
  Makes, >>=-Makes, named-Makes, if-Makes, returns-Makes, raise-Makes, lift-Makes, attempt-Makes,
  when-Makes, Makes-le,
}
use download_gateway.Adapters.Qbittorrent.{Torrent}
use download_gateway.Adapters.Qbittorrent.Calls.{
  Web, urlencoded, post, fetch, login, resend, authed,
}
use download_gateway.Adapters.Qbittorrent.Jobs.{
  send_add, add_tagged, add, by_tag, describe, remove_found, remove, after_verb, last_error,
  try_verbs, verb_failure, controlled, control, pause, resume, adopt,
}
use download_gateway.Adapters.Qbittorrent.Tag.{new_job_tag}

-- `sent` counts the requests: an exchange adds at most one, drawing random bytes none.
module _ {W : Type 0} (lib : GoLib) (web : Web W) (q : Qbittorrent) (sent : W → ℕ)
    (one : (r : Request) → Makes sent 1 (web.exchange r))
    (none_drawn : (w : W) → sent (web.random w).1 ≤ sent w) where
  login-Makes : Makes sent 1 (login lib web q)
  unfolding login post
  login-Makes =
      >>=-Makes sent 1 0 _ _ (named-Makes sent 1 _ _ (one _))
        λ resp. if-Makes sent 0 _ _ _ (raise-Makes sent _ 0 _) (returns-Makes sent 0 _)

  resend-Makes : (send : Call W Response) → Makes sent 1 send → Makes sent 3 (resend lib web q send)
  unfolding resend
  resend-Makes send h = >>=-Makes sent 1 2 _ _ h λ resp.
      if-Makes sent 2 _ _ _ (>>=-Makes sent 1 1 _ _ login-Makes (λ u. h)) (returns-Makes sent 2 _)

  -- The request, a login before it, and both once more.
  authed-Makes : (send : Call W Response) → Makes sent 1 send → Makes sent 4 (authed lib web q send)
  unfolding authed
  authed-Makes send h =
      when-Makes sent 4 _ _ _ (Makes-le sent 3 4 _ (omega arith) (resend-Makes send h))
        (>>=-Makes sent 1 3 _ _ login-Makes λ u. resend-Makes send h)

  by_tag-Makes : (tag : Str) → Makes sent 4 (by_tag lib web q tag)
  unfolding by_tag fetch
  by_tag-Makes tag = >>=-Makes sent 4 0 _ _ (authed-Makes _ (one _)) λ resp. lift-Makes sent 0 _

  describe-Makes : (tag : Str) → Makes sent 4 (describe lib web q tag)
  unfolding describe
  describe-Makes tag = >>=-Makes sent 4 0 _ _ (by_tag-Makes tag) λ t. returns-Makes sent 0 _

  remove_found-Makes : (t : Option Torrent) → Makes sent 4 (remove_found lib web q t)
  unfolding remove_found post
  remove_found-Makes none = returns-Makes sent 4 _
  remove_found-Makes (some t) =
      >>=-Makes sent 4 0 _ _ (authed-Makes _ (one _))
        λ resp. if-Makes sent 0 _ _ _ (raise-Makes sent _ 0 _) (returns-Makes sent 0 _)

  remove-Makes : (tag : Str) → Makes sent 8 (remove lib web q tag)
  unfolding remove
  remove-Makes tag = >>=-Makes sent 4 4 _ _ (by_tag-Makes tag) remove_found-Makes

  adopt-Makes : Makes sent 4 (adopt lib web q)
  unfolding adopt fetch
  adopt-Makes = >>=-Makes sent 4 0 _ _ (authed-Makes _ (one _)) λ resp.
      if-Makes sent 0 _ _ _ (raise-Makes sent _ 0 _)
        (>>=-Makes sent 0 0 _ _ (lift-Makes sent 0 _) λ list. returns-Makes sent 0 _)

  after_verb-Makes :
      (n : ℕ) (r : Option Failure) (next : Option Failure → Call W (Unit {0}))
      → ((last : Option Failure) → Makes sent n (next last))
      → Makes sent n (after_verb lib web q r next)
  unfolding after_verb
  after_verb-Makes n none next h = returns-Makes sent n _
  after_verb-Makes n (some f) next h = h (some f)

  -- Four for each verb.
  try_verbs-Makes :
      (hash : Str) (verbs : List Str) (last : Option Failure)
      → Makes sent (4 * length verbs) (try_verbs lib web q hash verbs last)
  unfolding try_verbs last_error post
  try_verbs-Makes hash [] none = returns-Makes sent 0 _
  try_verbs-Makes hash [] (some f) = raise-Makes sent _ 0 _
  try_verbs-Makes hash (verb ∷ verbs) last =
      subst (λ n. Makes sent n (try_verbs lib web q hash (verb ∷ verbs) last)) (omega arith)
        (>>=-Makes sent 4 (4 * length verbs) _ _
          (attempt-Makes sent 4 _ (
            authed-Makes
              (post lib web q (str "/api/v2/torrents/" ++ verb) urlencoded
                (form ((str "hashes", hash) ∷ [])))
              (one _)))
          λ r. after_verb-Makes _ (verb_failure verb r) _ (try_verbs-Makes hash verbs))

  controlled-Makes :
      (tag : Str) (verbs : List Str) (t : Option Torrent)
      → Makes sent (4 * length verbs) (controlled lib web q tag verbs t)
  unfolding controlled
  controlled-Makes tag verbs none = raise-Makes sent _ _ _
  controlled-Makes tag verbs (some t) = try_verbs-Makes t.hash verbs none

  control-Makes :
      (tag : Str) (verbs : List Str)
      → Makes sent (4 + 4 * length verbs) (control lib web q tag verbs)
  unfolding control
  control-Makes tag verbs = >>=-Makes sent 4 _ _ _ (by_tag-Makes tag) (controlled-Makes tag verbs)

  send_add-Makes : (tag : Str) (j : Job) → Makes sent 1 (send_add lib web q tag j)
  unfolding send_add post
  send_add-Makes tag j = if-Makes sent 1 _ _ _ (one _) (one _)

  add_tagged-Makes : (tag : Str) (j : Job) → Makes sent 4 (add_tagged lib web q tag j)
  unfolding add_tagged
  add_tagged-Makes tag j =
      >>=-Makes sent 4 0 _ _ (authed-Makes _ (send_add-Makes tag j)) λ resp. lift-Makes sent 0 _

  add-Makes : (j : Job) → Makes sent 4 (add lib web q j)
  unfolding add Makes
  add-Makes j w = omega (
    arith,
    none_drawn w,
    add_tagged-Makes (new_job_tag (web.random w).0 (web.clock w)) j (web.random w).1,
  )

  -- No call goes on retrying: Add, Describe and Adopt make at most 4 requests, Remove at most 8, and
  -- Pause and Resume at most 12, whatever the client answers.
  pub operations-Makes :
      (j : Job) (tag : Str)
      → Makes sent 4 (add lib web q j)
        × Makes sent 4 (describe lib web q tag)
        × Makes sent 8 (remove lib web q tag)
        × Makes sent 12 (pause lib web q tag)
        × Makes sent 12 (resume lib web q tag)
        × Makes sent 4 (adopt lib web q)
  unfolding pause resume
  operations-Makes j tag = (
    add-Makes j,
    describe-Makes tag,
    remove-Makes tag,
    control-Makes tag (str "stop" ∷ str "pause" ∷ []),
    control-Makes tag (str "start" ∷ str "resume" ∷ []),
    adopt-Makes,
  )
