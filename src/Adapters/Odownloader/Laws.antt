-- ===== src/Adapters/Odownloader/Laws.antt =====
-- The state of a package against its links.
use download_gateway.Prelude.{
  Bool, true, false, not, ◌&&◌, ◌||◌, Str, List, [], ◌∷◌, ◌++◌, ◌≡◌, refl, ◌∙◌, if◌then◌else◌, any,
  all, is_empty, arith,
}
use download_gateway.Adapters.Job.{Status}
use download_gateway.Adapters.Odownloader.{
  DownloadView, LinkState, finished, running, failed, pending, link_state, Fold, begin_fold,
  fold_view, fold_state, fold_link, fold_links, end_fold, fold_odl,
}

abbrev is_finished : LinkState → Bool
is_finished finished = true
is_finished _ = false

abbrev is_running : LinkState → Bool
is_running running = true
is_running _ = false

abbrev is_failed : LinkState → Bool
is_failed failed = true
is_failed _ = false

abbrev pub some_link : (LinkState → Bool) → List DownloadView → Bool
some_link p ls = any (λ l. p (link_state l.state)) ls

abbrev pub every_link : (LinkState → Bool) → List DownloadView → Bool
every_link p ls = all (λ l. p (link_state l.state)) ls

-- The output paths that the links report.
abbrev pub outputs : List DownloadView → List Str
outputs [] = []
outputs (l ∷ ls) = if is_empty l.output_path then outputs ls else l.output_path ∷ outputs ls

-- The terminal rule, on the links.
abbrev pub package_state : List DownloadView → Status
package_state ls =
    if every_link is_finished ls
    then Status.completed
    else if some_link is_failed ls && not (some_link is_running ls)
    then Status.failed
    else if some_link is_finished ls || some_link is_running ls
    then Status.downloading
    else Status.queued

-- The loop's flags, from any start.
record Folded (f g : Fold) (ls : List DownloadView) : Type 0 where
  all_finished : g.all_finished ≡ (f.all_finished && every_link is_finished ls)
  any_running : g.any_running ≡ (f.any_running || some_link is_running ls)
  any_failed : g.any_failed ≡ (f.any_failed || some_link is_failed ls)
  any_started :
      g.any_started ≡ (f.any_started || (some_link is_finished ls || some_link is_running ls))

Folded-[] : (f : Fold) → Folded f f []
Folded-[] f = record {
  all_finished = ground arith;
  any_running = ground arith;
  any_failed = ground arith;
  any_started = ground arith;
}

Folded-state :
    (k : LinkState) (f g : Fold) (l : DownloadView) (ls : List DownloadView)
    → link_state l.state ≡ k
    → Folded (fold_state k f) g ls
    → Folded f g (l ∷ ls)
unfolding fold_state
Folded-state finished f g l ls e h = record {
  all_finished = h.all_finished ∙ rw e (ground arith);
  any_running = h.any_running ∙ rw e (ground arith);
  any_failed = h.any_failed ∙ rw e (ground arith);
  any_started = h.any_started ∙ rw e (ground arith);
}
Folded-state running f g l ls e h = record {
  all_finished = h.all_finished ∙ rw e (ground arith);
  any_running = h.any_running ∙ rw e (ground arith);
  any_failed = h.any_failed ∙ rw e (ground arith);
  any_started = h.any_started ∙ rw e (ground arith);
}
Folded-state failed f g l ls e h = record {
  all_finished = h.all_finished ∙ rw e (ground arith);
  any_running = h.any_running ∙ rw e (ground arith);
  any_failed = h.any_failed ∙ rw e (ground arith);
  any_started = h.any_started ∙ rw e (ground arith);
}
Folded-state pending f g l ls e h = record {
  all_finished = h.all_finished ∙ rw e (ground arith);
  any_running = h.any_running ∙ rw e (ground arith);
  any_failed = h.any_failed ∙ rw e (ground arith);
  any_started = h.any_started ∙ rw e (ground arith);
}

Folded-cons :
    (f g : Fold) (l : DownloadView) (ls : List DownloadView)
    → Folded (fold_link f l) g ls
    → Folded f g (l ∷ ls)
unfolding fold_link
Folded-cons f g l ls h =
    let s =
      Folded-state (link_state l.state)
        (record f {
          view = fold_view f.view l;
          files = if is_empty l.output_path then f.files else f.files ++ l.output_path ∷ [];
        })
        g l ls refl h in
    record {
      all_finished = s.all_finished;
      any_running = s.any_running;
      any_failed = s.any_failed;
      any_started = s.any_started;
    }

fold_links-Folded : (f : Fold) (ls : List DownloadView) → Folded f (fold_links f ls) ls
unfolding fold_links
fold_links-Folded f [] = Folded-[] f
fold_links-Folded f (l ∷ ls) =
    Folded-cons f (fold_links (fold_link f l) ls) l ls (fold_links-Folded (fold_link f l) ls)

-- The terminal rule, on the flags.
end_fold-state :
    (f : Fold)
    → (end_fold f).state ≡ (
        if f.all_finished
        then Status.completed
        else if f.any_failed && not f.any_running
        then Status.failed
        else if f.any_started
        then Status.downloading
        else Status.queued)
unfolding end_fold
end_fold-state f = ground arith

-- A package is completed when every link is finished. Otherwise it is failed when a link failed and
-- none is running, downloading when a link is finished or running, and queued when none is.
pub fold_odl-state :
    (l : DownloadView) (ls : List DownloadView) → (fold_odl (l ∷ ls)).state ≡ package_state (l ∷ ls)
unfolding fold_odl begin_fold
fold_odl-state l ls =
    let h = fold_links-Folded begin_fold (l ∷ ls) in
    end_fold-state (fold_links begin_fold (l ∷ ls))
    ∙ rw (h.all_finished, h.any_running, h.any_failed, h.any_started)
