-- ===== src/Adapters/Nzbget/Info.antt =====
-- internal/adapters/nzbget.go: the version probe and the client-wide status.
use download_gateway.Prelude.{
  ℕ, suc, Bool, true, ◌||◌, Str, str, Option, none, some, List, [], ◌∷◌, ◌++◌, if◌then◌else◌,
  is_empty, eqb, ltb, leb, length,
}
use download_gateway.Prelude.Strings.{contains_byte, itoa, itoa_ℤ}
use download_gateway.Adapters.Client.{Nzbget}
use download_gateway.Adapters.Spec.{GoLib}
use download_gateway.Adapters.Failure.{plain, Outcome, ok, fail, error_text, public_error}
use download_gateway.Adapters.Report.{ClientStatus, status_of}
use download_gateway.Adapters.Http.{Call, ◌>>=◌, lift}
use download_gateway.Adapters.Nzbget.{exact64}
use download_gateway.Adapters.Nzbget.Calls.{Endpoint, Stats, call}

-- What a version does not have: a space or a control character, or one of "<>{".
abbrev pub not_in_version : ℕ → Bool
not_in_version c = leb c b' ' || eqb c b'<' || eqb c b'>' || eqb c b'{'

unfoldable pub version_answer : Option Str → Outcome Str
version_answer none = fail (plain (str "nzbget version: the endpoint did not answer like NZBGet"))
version_answer (some v) =
    if is_empty v || ltb 32 (length v) || contains_byte not_in_version v
    then fail (plain (str "nzbget version: the endpoint did not answer like NZBGet"))
    else ok v

abbrev pub count_active : List Bool → ℕ
count_active [] = 0
count_active (a ∷ as_) = if a then suc (count_active as_) else count_active as_

unfoldable pub stats_status : ClientStatus → Stats → ClientStatus
stats_status cs st = record cs {
  reachable = true;
  down_bps = st.download_rate;
  paused = st.server_paused || st.download2_paused;
  free_disk = some (exact64 st.free_disk_lo st.free_disk_hi st.free_disk_mb);
  detail =
      (
        str "news_servers_active",
        itoa (count_active st.servers) ++ (str "/" ++ itoa (length st.servers)),
      )
      ∷ (str "post_jobs", itoa_ℤ st.post_job_count)
      ∷ (if st.quota_reached then (str "quota", str "reached") ∷ [] else []);
}

module _ {W : Type 0} (lib : GoLib) (rpc : Endpoint W) (n : Nzbget) where
  -- Probe
  unfoldable pub probe : Call W Str
  unfolding version_answer
  probe = do res ← call rpc n (str "version") []; lift (version_answer (rpc.version res))

  stats_decoded : ClientStatus → Outcome Stats → ClientStatus
  unfolding stats_status
  stats_decoded cs (fail f) = record cs { error = error_text lib f }
  stats_decoded cs (ok st) = stats_status cs st

  stats_answer : ClientStatus → Outcome Str → ClientStatus
  unfolding stats_decoded
  stats_answer cs (fail f) = record cs { error = public_error lib f }
  stats_answer cs (ok res) = stats_decoded cs (rpc.stats res)

  -- ClientStatus, which has no error of its own.
  unfoldable pub client_status : W → ClientStatus × W
  unfolding stats_answer
  client_status w =
      let (answer, after) = call rpc n (str "status") [] w in
      (stats_answer (status_of (str "nzbget")) answer, after)
