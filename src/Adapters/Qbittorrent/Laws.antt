-- ===== src/Adapters/Qbittorrent/Laws.antt =====
-- Which torrents are adopted after a restart.
use mathlib.Core.List.{Memᴰ}
use download_gateway.Prelude.{
  true, false, Str, ==_iff, is_empty, some, List, [], ◌∷◌, ◌≡◌, ◌≢◌, ◌⊎◌, refl, All, Bool-cases,
  Option-cases, inl, inr, arith,
}
use download_gateway.Prelude.Strings.{has_prefix, split, trim_space}
use download_gateway.Adapters.Job.{Status, AdoptedJob}
use download_gateway.Adapters.Qbittorrent.{
  Torrent, fold_qb, job_tag, job_tag_prefix, is_terminal, is_foreign, adopt_torrents,
}

-- A job that may be adopted: a torrent of the list that is still running, is not filed under another
-- client's category, and carries the job's id as a tag with the gateway's prefix.
pub record IsOurs (category : Str) (ts : List Torrent) (a : AdoptedJob) : Type 0 where
  pub torrent : Torrent
  pub listed : Memᴰ torrent ts
  pub incomplete : (fold_qb torrent).state ≢ Status.completed
  pub not_failed : (fold_qb torrent).state ≢ Status.failed
  pub ours : (category ≡ []) ⊎ (torrent.category ≡ []) ⊎ (torrent.category ≡ category)
  pub tagged : job_tag (split torrent.tags b',') ≡ some a.client_job_id
  pub among : (raw : Str) × Memᴰ raw (split torrent.tags b',') × (trim_space raw ≡ a.client_job_id)
  pub marked : has_prefix a.client_job_id job_tag_prefix ≡ true
  pub title : a.title ≡ torrent.name

job_tag-marked :
    (tags : List Str) (tag : Str) → job_tag tags ≡ some tag → has_prefix tag job_tag_prefix ≡ true
unfolding job_tag
job_tag-marked [] tag h = absurd (cc)
job_tag-marked (raw ∷ tags) tag h = ground (arith, job_tag-marked tags tag)

some-eq : {A : Type 0} {a b : A} → some a ≡ some b → a ≡ b
some-eq h = cc

job_tag-among :
    (tags : List Str) (tag : Str)
    → job_tag tags ≡ some tag
    → (raw : Str) × Memᴰ raw tags × (trim_space raw ≡ tag)
unfolding job_tag
job_tag-among [] tag h = absurd (cc)
job_tag-among (raw ∷ tags) tag h = elim (Bool-cases (has_prefix (trim_space raw) job_tag_prefix)) [
  | inl own ↦ (raw, Memᴰ.head refl, some-eq (rw (own, job_tag) at h))
  | inr other ↦
      let (r, m, e) = job_tag-among tags tag (rw (other, job_tag) at h) in (r, Memᴰ.tail m, e)
]

runs : (s : Status) → is_terminal s ≡ false → (s ≢ Status.completed) × (s ≢ Status.failed)
runs Status.queued h = (λ e. absurd (cc), λ e. absurd (cc))
runs Status.downloading h = (λ e. absurd (cc), λ e. absurd (cc))
runs Status.completed h = absurd (cc)
runs Status.failed h = absurd (cc)

empty-eq : (s : Str) → is_empty s ≡ true → s ≡ []
empty-eq [] h = refl
empty-eq (c ∷ s) h = absurd (cc)

not_foreign :
    (category : Str) (t : Torrent)
    → is_foreign category t ≡ false
    → (category ≡ []) ⊎ (t.category ≡ []) ⊎ (t.category ≡ category)
unfolding is_foreign
not_foreign category t h =
    ground (arith, h, empty-eq category, empty-eq t.category, ==_iff t.category category)

IsOurs-cons :
    (category : Str) (t : Torrent) (ts : List Torrent) (a : AdoptedJob)
    → IsOurs category ts a
    → IsOurs category (t ∷ ts) a
IsOurs-cons category t ts a o = record {
  torrent = o.torrent;
  listed = Memᴰ.tail o.listed;
  incomplete = o.incomplete;
  not_failed = o.not_failed;
  ours = o.ours;
  tagged = o.tagged;
  among = o.among;
  marked = o.marked;
  title = o.title;
}

All-cons :
    (category : Str) (t : Torrent) (ts : List Torrent) (as_ : List AdoptedJob)
    → All (IsOurs category ts) as_
    → All (IsOurs category (t ∷ ts)) as_
All-cons category t ts [] h = tt
All-cons category t ts (a ∷ as_) h =
    (IsOurs-cons category t ts a h.0, All-cons category t ts as_ h.1)

-- Every adopted job is the gateway's own and still running, so no restart replays the event of a
-- finished download or takes over another client's.
pub adopt_torrents-IsOurs :
    (category : Str) (ts : List Torrent) → All (IsOurs category ts) (adopt_torrents category ts)
unfolding adopt_torrents
adopt_torrents-IsOurs category [] = tt
adopt_torrents-IsOurs category (t ∷ ts) =
    let rest =
      All-cons category t ts (adopt_torrents category ts) (adopt_torrents-IsOurs category ts) in
    elim (Bool-cases (is_terminal (fold_qb t).state)) [
      | inl ended ↦ rw (ended, adopt_torrents) rest
      | inr live ↦ elim (Bool-cases (is_foreign category t)) [
        | inl other ↦ rw (live, other, adopt_torrents) rest
        | inr own ↦ elim (Option-cases (job_tag (split t.tags b','))) [
          | inl untagged ↦ rw (live, own, untagged, adopt_torrents) rest
          | inr (tag, tagged) ↦
              rw (live, own, tagged, adopt_torrents)
                (
                  record {
                    torrent = t;
                    listed = Memᴰ.head refl;
                    incomplete = (runs _ live).0;
                    not_failed = (runs _ live).1;
                    ours = not_foreign category t own;
                    tagged = tagged;
                    among = job_tag-among (split t.tags b',') tag tagged;
                    marked = job_tag-marked (split t.tags b',') tag tagged;
                    title = refl;
                  },
                  rest,
                )
        ]
      ]
    ]
