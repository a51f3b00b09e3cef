-- ===== src/Updater/Github/Cached.antt =====
-- The cached release across a restart.
use pv_inverter_master.Base.{
  ◌≡◌, ◌≢◌, refl, ap, ◌∙◌, String, false, Option, none, some, Bool-cases, inl, inr,
}
use pv_inverter_master.Json.{Value, object, Fields, get, has_key, truthy}
use pv_inverter_master.Updater.Exec.{Written, written, unwritten, mode_unset}
use pv_inverter_master.Updater.Status.{FileText, json}
use pv_inverter_master.Updater.Texts.{is_empty}
use pv_inverter_master.Updater.Github.{
  ReleaseInfo, GithubReleaseClient, answered, etag_of, loaded_release, load_value, load_state,
  fetched_release, state_value, save_state, or_etag, remember, fetch_body, fetch_latest_release,
  etag_value, release_value,
}

-- An ETag that is kept is not empty.
abbrev pub IsTagged : Option String → Type 0
IsTagged none = Unit
IsTagged (some e) = is_empty e ≡ false

etag_of-value : (o : Option String) → IsTagged o → etag_of (etag_value o) ≡ o
etag_of-value none h = refl
etag_of-value (some e) h = rw h refl

loaded_release-value :
    (py_str : Value → String) (o : Option ReleaseInfo) → loaded_release py_str (release_value o) ≡ o
unfolding loaded_release get has_key
loaded_release-value py_str none = refl
loaded_release-value py_str (some r) = refl

abbrev client : FileText → Option String → Option ReleaseInfo → GithubReleaseClient
client file etag release = record { etag = etag; cached_release = release; state_file = file }

-- What a client saved is loaded again.
load_state-state_value :
    (py_str : Value → String) (etag : Option String) (release : Option ReleaseInfo)
    → IsTagged etag
    → let file = json (state_value etag release) in
      load_state py_str file ≡ some (client file etag release)
unfolding load_state load_value get
load_state-state_value py_str etag release h =
    let file = json (state_value etag release) in
    ap (λ e. some (client file e (loaded_release py_str (release_value release))))
      (etag_of-value etag h)
    ∙ ap (λ r. some (client file etag r)) (loaded_release-value py_str release)

or_etag-IsTagged : (new old : Option String) → IsTagged old → IsTagged (or_etag new old)
or_etag-IsTagged none old h = h
or_etag-IsTagged (some e) old h = elim (Bool-cases (is_empty e)) [
  | inl blank ↦ rw blank h
  | inr full ↦ rw full full
]

remembered :
    (w : Written) (etag : Option String) (release : Option ReleaseInfo) (c : GithubReleaseClient)
    → w ≢ unwritten
    → remember w etag release c ≡ record {
      etag = or_etag etag c.etag;
      cached_release = release;
      state_file = json (state_value (or_etag etag c.etag) release);
    }
unfolding remember save_state
remembered written etag release c h = refl
remembered unwritten etag release c h = absurd (h refl)
remembered mode_unset etag release c h = refl

-- A release, no prerelease, that was fetched and saved by a client without an empty ETag survives a
-- restart: the client that reads the cache file has the same ETag and release, and returns the
-- release at the next 304, as the client before it does.
pub fetched_release_survives :
    (py_str : Value → String) (w : Written) (fs : Fields) (etag : Option String)
    (c : GithubReleaseClient)
    → truthy (get "prerelease" fs) ≡ false
    → w ≢ unwritten
    → IsTagged c.etag
    → let (c', r) = fetch_latest_release py_str w (answered 200 (some (object fs)) etag) c in
      (r ≡ some (fetched_release py_str fs))
      × (load_state py_str c'.state_file ≡ some c')
      × ((body : Option Value) (e : Option String)
          → fetch_latest_release py_str w (answered 304 body e) c' ≡ (c', r))
unfolding fetch_latest_release fetch_body
fetched_release_survives py_str w fs etag c final saved tagged =
    let tag = or_etag etag c.etag in
    let release = some (fetched_release py_str fs) in
    let e = remembered w etag release c saved in
    rw (final, e)
      (
        refl,
        load_state-state_value py_str tag release (or_etag-IsTagged etag c.etag tagged),
        λ body e. refl,
      )
