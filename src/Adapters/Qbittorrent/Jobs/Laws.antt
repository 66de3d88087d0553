-- ===== src/Adapters/Qbittorrent/Jobs/Laws.antt =====
-- What a call that succeeds says of the client's answer.
use mathlib.Core.List.{Memᴰ}
use download_gateway.Prelude.{
  false, Str, str, ◌==◌, Option, none, some, List, [], ◌∷◌, ◌≡◌, refl, sym, ap, ◌∙◌, subst,
  Bool-cases, inl, inr, arith,
}
use download_gateway.Prelude.Strings.{split}
use download_gateway.Adapters.Job.{Job, Status, JobView, AdoptedJob, new_job_view}
use download_gateway.Adapters.Client.{Qbittorrent}
use download_gateway.Adapters.Spec.{GoLib}
use download_gateway.Adapters.Failure.{Outcome, ok, fail, max_list_response}
use download_gateway.Adapters.Http.{Response, Call, returns, lift, Decoder, decode_capped}
use download_gateway.Adapters.Http.Laws.{>>=-eq-ok}
use download_gateway.Adapters.Qbittorrent.{
  Torrent, fold_qb, describe_tag, job_tag, is_terminal, is_foreign, adopt_tagged, adopt_torrents,
}
use download_gateway.Adapters.Qbittorrent.Tag.{new_job_tag}
use download_gateway.Adapters.Qbittorrent.Tag.Laws.{AreBytes, job_tag-new_job_tag}
use download_gateway.Adapters.Qbittorrent.Calls.{Web, short_body, fetch, authed}
use download_gateway.Adapters.Qbittorrent.Jobs.{
  first_of, first_decoded, tag_answer, added_tag, send_add, add_tagged, add, by_tag, describe,
}

-- The request for the torrents with a tag.
abbrev pub info_call : {W : Type 0} → GoLib → Web W → Qbittorrent → Str → Call W Response
info_call lib web q tag =
    authed lib web q (fetch lib web q (str "/api/v2/torrents/info") ((str "tag", tag) ∷ []))

-- The client answered the listing of a tag with status 200 and the list.
pub record Listed {W : Type 0} (lib : GoLib) (web : Web W) (q : Qbittorrent) (tag : Str) (w : W)
    (list : List Torrent) : Type 0 where
  pub answer : Response
  pub came : (info_call lib web q tag w).0 ≡ ok answer
  pub success : answer.status ≡ 200
  pub decoded : decode_capped max_list_response web.torrents answer.body ≡ ok list

first_decoded-eq-ok :
    (r : Outcome (List Torrent)) (t : Option Torrent)
    → first_decoded r ≡ ok t
    → (list : List Torrent) × (r ≡ ok list) × (t ≡ first_of list)
unfolding first_decoded
first_decoded-eq-ok (ok list) t h = (list, refl, cc)
first_decoded-eq-ok (fail f) t h = absurd (cc)

-- A view of what was listed: of the first torrent, or "not found" if there is none.
abbrev pub Shows : JobView → List Torrent → Type 0
Shows v [] = v ≡ record (new_job_view Status.queued) { native_state = str "not-found" }
Shows v (t ∷ ts) = v ≡ fold_qb t

first_of-Shows : (list : List Torrent) → Shows (describe_tag (first_of list)) list
unfolding first_of describe_tag
first_of-Shows [] = refl
first_of-Shows (t ∷ ts) = refl

returned : {A : Type 0} {a c : A} → ok a ≡ ok c → a ≡ c
returned h = cc

added_tag-eq-ok :
    (tag : Str) (resp : Response) (t : Str)
    → added_tag tag resp ≡ ok t
    → (resp.status ≡ 200) × (((short_body resp == str "Fails.") ≡ false) × (t ≡ tag))
unfolding added_tag
added_tag-eq-ok tag resp t h = ground arith

tag_answer-eq-ok :
    (decode : Decoder (List Torrent)) (resp : Response) (t : Option Torrent)
    → tag_answer decode resp ≡ ok t
    → (resp.status ≡ 200)
      × (first_decoded (decode_capped max_list_response decode resp.body) ≡ ok t)
unfolding tag_answer
tag_answer-eq-ok decode resp t h = ground arith

module _ {W : Type 0} (lib : GoLib) (web : Web W) (q : Qbittorrent) where
  by_tag-Listed :
      (tag : Str) (w : W) (t : Option Torrent)
      → (by_tag lib web q tag w).0 ≡ ok t
      → (list : List Torrent) × Listed lib web q tag w list × (t ≡ first_of list)
  unfolding by_tag
  by_tag-Listed tag w t h =
      let (answer, came, after) =
        >>=-eq-ok (info_call lib web q tag) (λ resp. lift (tag_answer web.torrents resp)) w t h in
      let (success, decoding) = tag_answer-eq-ok web.torrents answer t after in
      let (list, decoded, first) = first_decoded-eq-ok _ t decoding in
      (list, record { answer = answer; came = came; success = success; decoded = decoded }, first)

  -- Describe succeeds only on an answer with status 200 that decodes, and gives the view of the first
  -- torrent listed, or says that the job is not found, and this only if the client listed none.
  pub describe-Listed :
      (tag : Str) (w : W) (v : JobView)
      → (describe lib web q tag w).0 ≡ ok v
      → (list : List Torrent) × Listed lib web q tag w list × Shows v list
  unfolding describe
  describe-Listed tag w v h =
      let (t, found, end_) =
        >>=-eq-ok (by_tag lib web q tag) (λ t. returns (describe_tag t)) w v h in
      let (list, listed, first) = by_tag-Listed tag w t found in
      (
        list,
        listed,
        subst (λ view. Shows view list) (ap describe_tag (sym first) ∙ returned end_)
            (first_of-Shows list),
      )

  -- What the client answered to an Add that returned the tag.
  pub record Accepted (tag : Str) (j : Job) (w : W) : Type 0 where
    pub answer : Response
    pub came : (authed lib web q (send_add lib web q tag j) w).0 ≡ ok answer
    pub success : answer.status ≡ 200
    pub taken : (short_body answer == str "Fails.") ≡ false

  add_tagged-Accepted :
      (tag : Str) (j : Job) (w : W) (t : Str)
      → (add_tagged lib web q tag j w).0 ≡ ok t
      → (t ≡ tag) × Accepted tag j w
  unfolding add_tagged
  add_tagged-Accepted tag j w t h =
      let (answer, came, after) =
        >>=-eq-ok (authed lib web q (send_add lib web q tag j)) (λ resp. lift (added_tag tag resp))
          w t h in
      let (success, (taken, same)) = added_tag-eq-ok tag answer t after in
      (same, record { answer = answer; came = came; success = success; taken = taken })

adopt_tagged-keeps :
    (t : Torrent) (o : Option Str) (a : AdoptedJob) (rest : List AdoptedJob)
    → Memᴰ a rest
    → Memᴰ a (adopt_tagged t o rest)
unfolding adopt_tagged
adopt_tagged-keeps t none a rest m = m
adopt_tagged-keeps t (some tag) a rest m = Memᴰ.tail m

adopt_torrents-keeps :
    (category : Str) (t : Torrent) (ts : List Torrent) (a : AdoptedJob)
    → Memᴰ a (adopt_torrents category ts)
    → Memᴰ a (adopt_torrents category (t ∷ ts))
unfolding adopt_torrents
adopt_torrents-keeps category t ts a m = elim (Bool-cases (is_terminal (fold_qb t).state)) [
  | inl ended ↦ rw (ended, adopt_torrents) m
  | inr live ↦ elim (Bool-cases (is_foreign category t)) [
    | inl other ↦ rw (live, other, adopt_torrents) m
    | inr own ↦ rw (live, own, adopt_torrents) (adopt_tagged-keeps t _ a _ m)
  ]
]

adopt_torrents-head :
    (category tag : Str) (t : Torrent) (ts : List Torrent)
    → is_terminal (fold_qb t).state ≡ false
    → is_foreign category t ≡ false
    → job_tag (split t.tags b',') ≡ some tag
    → Memᴰ (record { client_job_id = tag; title = t.name }) (adopt_torrents category (t ∷ ts))
unfolding adopt_torrents adopt_tagged
adopt_torrents-head category tag t ts live own tagged =
    rw (live, own, tagged, adopt_torrents) (Memᴰ.head refl)

adopt_torrents-finds :
    (category tag : Str) (t : Torrent) (ts : List Torrent)
    → Memᴰ t ts
    → is_terminal (fold_qb t).state ≡ false
    → is_foreign category t ≡ false
    → job_tag (split t.tags b',') ≡ some tag
    → Memᴰ (record { client_job_id = tag; title = t.name }) (adopt_torrents category ts)
adopt_torrents-finds category tag t [] m live own tagged = elim m [ ]
adopt_torrents-finds category tag t (x ∷ ts) (Memᴰ.head e) live own tagged =
    subst
      (λ y.
        Memᴰ (record { client_job_id = tag; title = t.name }) (adopt_torrents category (y ∷ ts)))
      e (adopt_torrents-head category tag t ts live own tagged)
adopt_torrents-finds category tag t (x ∷ ts) (Memᴰ.tail m) live own tagged =
    adopt_torrents-keeps category x ts _ (adopt_torrents-finds category tag t ts m live own tagged)

module _ {W : Type 0} (lib : GoLib) (web : Web W) (q : Qbittorrent) where
  -- An Add that succeeded was answered with status 200 and not with "Fails.", and what it returned is
  -- the tag that it sent; if the random bytes are bytes, Adopt finds the job under that tag among any
  -- torrents in which one has that tag, runs and is not filed under another category.
  pub add-adopt :
      (j : Job) (w : W) (tag : Str)
      → (add lib web q j w).0 ≡ ok tag
      → AreBytes (web.random w).0
      → Accepted lib web q tag j (web.random w).1
        × ((t : Torrent) (ts : List Torrent)
            → Memᴰ t ts
            → t.tags ≡ tag
            → is_terminal (fold_qb t).state ≡ false
            → is_foreign q.category t ≡ false
            → Memᴰ (record { client_job_id = tag; title = t.name }) (adopt_torrents q.category ts))
  unfolding add
  add-adopt j w tag h bytes =
      let made = new_job_tag (web.random w).0 (web.clock w) in
      let (same, accepted) = add_tagged-Accepted lib web q made j (web.random w).1 tag h in
      let read = job_tag-new_job_tag (web.random w).0 (web.clock w) bytes in
      (
        subst (λ s. Accepted lib web q s j (web.random w).1) (sym same) accepted,
        λ t ts m tags live own.
            adopt_torrents-finds q.category tag t ts m live own (rw (tags, same) read),
      )
