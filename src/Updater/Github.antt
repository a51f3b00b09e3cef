-- ===== src/Updater/Github.antt =====
-- `GithubReleaseClient` of updater/github_client.py. The reply of the HTTP client, Python's `str` of a value
-- that is no text, and how the write of the cache file ends are inputs.
pub mod Cached
use pv_inverter_master.Base.{ℕ, String, Bool, true, false, Option, none, some, ◌==◌, if◌then◌else◌}
use pv_inverter_master.Json.{
  Value, null, boolean, text, object, Fields, end, field, get, has_key, truthy,
}
use pv_inverter_master.Updater.Exec.{Written, written, unwritten, mode_unset}
use pv_inverter_master.Updater.Status.{
  FileText, missing, unreadable, undecodable, empty, corrupt, json,
}
use pv_inverter_master.Updater.Texts.{is_empty}

pub record ReleaseInfo : Type 0 where
  pub tag_name : String
  pub published_at : String
  pub body : String
  pub html_url : String
  pub prerelease : Bool

pub record GithubReleaseClient : Type 0 where
  pub etag : Option String
  pub cached_release : Option ReleaseInfo
  pub state_file : FileText

-- A request that raises, or a status with its body and ETag header; a body of none raises in `json`.
pub data Reply : Type 0 where
  raised : Reply
  answered : ℕ → Option Value → Option String → Reply

abbrev pub etag_of : Value → Option String
etag_of (text s) = if is_empty s then none else some s
etag_of _ = none

module _ (py_str : Value → String) where
  abbrev pub str_of : Value → String
  str_of (text s) = s
  str_of v = py_str v

  -- `str(raw.get(key, ""))`
  abbrev pub loaded_text : String → Fields → String
  loaded_text key fs = if has_key key fs then str_of (get key fs) else ""

  pub loaded_release : Value → Option ReleaseInfo
  loaded_release (object fs) = some (record {
    tag_name = loaded_text "tag_name" fs;
    published_at = loaded_text "published_at" fs;
    body = loaded_text "body" fs;
    html_url = loaded_text "html_url" fs;
    prerelease = truthy (get "prerelease" fs);
  })
  loaded_release _ = none

  pub load_value : Value → FileText → GithubReleaseClient
  unfolding loaded_release
  load_value (object fs) file = record {
    etag = etag_of (get "etag" fs);
    cached_release = loaded_release (get "release" fs);
    state_file = file;
  }
  load_value _ file = record { etag = none; cached_release = none; state_file = file }

  -- `__init__` with `_load_state`; none is the UnicodeDecodeError, which it does not catch.
  unfoldable pub load_state : FileText → Option GithubReleaseClient
  unfolding load_value
  load_state (json v) = some (load_value v (json v))
  load_state undecodable = none
  load_state file = some (record { etag = none; cached_release = none; state_file = file })

  -- `str(data.get(key, "") or "")`
  abbrev pub fetched_text : String → Fields → String
  fetched_text key fs = if truthy (get key fs) then str_of (get key fs) else ""

  unfoldable pub fetched_release : Fields → ReleaseInfo
  fetched_release fs = record {
    tag_name = fetched_text "tag_name" fs;
    published_at = fetched_text "published_at" fs;
    body = fetched_text "body" fs;
    html_url = fetched_text "html_url" fs;
    prerelease = false;
  }

abbrev pub etag_value : Option String → Value
etag_value none = null
etag_value (some e) = text e

-- `asdict`, with the keys sorted.
abbrev pub release_value : Option ReleaseInfo → Value
release_value none = null
release_value (some r) = object (
    field "body" (text r.body) (
      field "html_url" (text r.html_url) (
        field "prerelease" (boolean r.prerelease)
          (field "published_at" (text r.published_at) (field "tag_name" (text r.tag_name) end)))))

abbrev pub state_value : Option String → Option ReleaseInfo → Value
state_value etag release =
    object (field "etag" (etag_value etag) (field "release" (release_value release) end))

-- `_save_state`: a failure is only logged; one of the chmod comes when the file is replaced.
unfoldable pub save_state : Written → GithubReleaseClient → GithubReleaseClient
save_state unwritten c = c
save_state _ c = record c { state_file = json (state_value c.etag c.cached_release) }

-- `new_etag or self._etag`
abbrev pub or_etag : Option String → Option String → Option String
or_etag none old = old
or_etag (some e) old = if is_empty e then old else some e

unfoldable pub remember :
    Written → Option String → Option ReleaseInfo → GithubReleaseClient → GithubReleaseClient
unfolding save_state
remember w etag release c =
    save_state w (record c { etag = or_etag etag c.etag; cached_release = release })

module _ (py_str : Value → String) where
  -- A status of 200 with its body.
  pub fetch_body :
      Written
      → Option Value
      → Option String
      → GithubReleaseClient
      → GithubReleaseClient × Option ReleaseInfo
  unfolding remember fetched_release
  fetch_body w (some (object fs)) etag c =
      if truthy (get "prerelease" fs)
      then (remember w etag none c, none)
      else (remember w etag (some (fetched_release py_str fs)) c, some (fetched_release py_str fs))
  fetch_body w _ etag c = (c, none)

  -- `fetch_latest_release`. The other statuses differ in the log only.
  unfoldable pub fetch_latest_release :
      Written → Reply → GithubReleaseClient → GithubReleaseClient × Option ReleaseInfo
  unfolding fetch_body
  fetch_latest_release w raised c = (c, none)
  fetch_latest_release w (answered status body etag) c =
      if status == 304
      then (c, c.cached_release)
      else if status == 200
      then fetch_body w body etag c
      else (c, none)
