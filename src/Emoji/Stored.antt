-- ===== src/Emoji/Stored.antt =====
-- What get_or_upload_emoji keeps in the emoji table, and when it makes a request.
use mathlib.Core.Option.{some-injective, map as map_option}
use matrix_bridge_slack.Prelude.{
  ℕ, Bool-cases, inl, inr, ◌≡◌, refl, ap, sym, ◌∙◌, subst, String, Bool, not, Option, none, some,
  ◌==◌, eq_iff, if◌then◌else◌, arith,
}
use matrix_bridge_slack.Db.{Table}
use matrix_bridge_slack.Db.Emojis.{
  EmojiMapping, new, uploaded, uploaded-create, get_emoji_by_slack_id, create_emoji,
}
use matrix_bridge_slack.Bridge.{
  State, Env, Media, Upload, refused, unreadable, replied, download_from_url,
}
use matrix_bridge_slack.Bridge.Monad.{call}
use matrix_bridge_slack.Bridge.Triple.{
  Post, Triple, Triple-pure, Triple-raise, Triple-query, Triple-try_write, Triple-with_state,
  Triple-if, Triple-bind, Triple-call,
}
use matrix_bridge_slack.Emoji.{
  is_numerical, with_emojis, address_of, uploaded_as, upload_request, post, upload_to_matrix,
  upload_emoji_to_matrix, url_for, emoji_type, or_upload, get_or_upload_emoji,
}

module _ (homeserver_url : String) (encode : String → String) (t : Table EmojiMapping) where
  abbrev Same : State → Type 0
  Same s = s.emojis ≡ t

  address_of-Same :
      (missing : String) (o : Option String) → Triple Same (address_of missing o) (λ _. Same) Same
  address_of-Same missing none = Triple-raise _ λ s h. h
  address_of-Same missing (some uri) = Triple-pure uri λ s h. h

  uploaded_as-Same :
      (missing : String) (u : Upload) → Triple Same (uploaded_as missing u) (λ _. Same) Same
  uploaded_as-Same missing (refused body) = Triple-raise _ λ s h. h
  uploaded_as-Same missing (unreadable e) = Triple-raise _ λ s h. h
  uploaded_as-Same missing (replied json) = address_of-Same missing _

  post-Same :
      (missing content_type filename : String)
      → Triple Same (post homeserver_url encode missing content_type filename) (λ _. Same) Same
  post-Same missing content_type filename =
      let q = upload_request homeserver_url encode content_type filename in
      Triple-bind {Q = λ _. Same} (call q) (uploaded_as missing)
        (Triple-call q (λ a s h. h) (λ s h. h)) (uploaded_as-Same missing)

  upload_to_matrix-Same :
      (content_type filename : String)
      → Triple Same (upload_to_matrix homeserver_url encode content_type filename) (λ _. Same) Same
  unfolding upload_to_matrix
  upload_to_matrix-Same content_type filename = post-Same _ content_type filename

  pub upload_emoji_to_matrix-Same :
      (media : Media)
      → Triple Same (upload_emoji_to_matrix homeserver_url encode media) (λ _. Same) Same
  unfolding upload_emoji_to_matrix
  upload_emoji_to_matrix-Same media = post-Same _ media.content_type media.filename

  module _ (id name : String) (animated : Bool) where
    -- the id has the address, and every other id the one it had
    abbrev pub Uploaded : String → State → Type 0
    Uploaded url s =
        (k : String) → uploaded s.emojis k ≡ (if id == k then some url else uploaded t k)

    known :
        (url : String)
        → uploaded t id ≡ some url
        → (k : String) → uploaded t k ≡ (if id == k then some url else uploaded t k)
    known url e k = elim (Bool-cases (id == k)) [
      | inl h ↦ rw h (subst (λ x. uploaded t x ≡ some url) ((eq_iff id k).0 h) e)
      | inr h ↦ rw h refl
    ]

    with_emojis-some :
        (s u : State) (o : Option (Table EmojiMapping))
        → with_emojis s o ≡ some u
        → o ≡ some u.emojis
    with_emojis-some s u none e = absurd (ground (arith, e))
    with_emojis-some s u (some emojis) e =
        ap some (ap (λ (x : State). x.emojis) (some-injective (record s { emojis = emojis }) u e))

    stored :
        (s u : State) (url : String) (now : ℕ)
        → Same s
        → with_emojis s (create_emoji s.emojis (new id name animated url now)) ≡ some u
        → Uploaded url u
    stored s u url now same e k =
        subst
          (λ (x : Table EmojiMapping).
            uploaded u.emojis k ≡ (if id == k then some url else uploaded x k))
          same
          (uploaded-create s.emojis u.emojis (new id name animated url now) k
            (with_emojis-some s u _ e))

    or_upload-Uploaded :
        (o : Option EmojiMapping)
        → Triple
            (λ s. (o ≡ get_emoji_by_slack_id t id) × Same s)
            (or_upload homeserver_url encode id name animated o)
            Uploaded
            Same
    or_upload-Uploaded (some cached) = Triple-pure cached.mxc_url λ s h k.
        ap (λ x. uploaded x k) h.1
        ∙ known cached.mxc_url (ap (map_option (λ (e : EmojiMapping). e.mxc_url)) (sym h.0)) k
    or_upload-Uploaded none =
        Triple-bind {Q = λ _. Same} _ _
          (Triple-call (download_from_url (url_for id animated)) (λ a s h. h.1) (λ s h. h.1))
          λ media.
            Triple-bind _ _ (upload_to_matrix-Same (emoji_type animated) media.filename) λ url.
              Triple-bind {Q = λ _. Same} _ _ (Triple-with_state _ (λ now s h. h)) λ now.
                Triple-bind {Q = λ _. Uploaded url} _ _
                  (Triple-try_write _ tt (λ s u h e. stored s u url now h e) (λ s h. h))
                  (λ _. Triple-pure url λ s h. h)

    get_or_upload_emoji-Uploaded_lem :
        Triple Same (get_or_upload_emoji homeserver_url encode id name animated) Uploaded Same
    unfolding get_or_upload_emoji
    get_or_upload_emoji-Uploaded_lem =
        Triple-if (not (is_numerical id)) _ _ (λ _. Triple-raise _ λ s h. h)
          (λ _.
            Triple-bind {Q = λ o s. (o ≡ get_emoji_by_slack_id t id) × Same s} _ _
              (Triple-query _ (λ s h. (ap (λ x. get_emoji_by_slack_id x id) h, h)) (λ s h. h))
              or_upload-Uploaded)

-- When get_or_upload_emoji returns an address, the emoji table has that address for the id, and
-- for every other id what it had; when it fails, the table is as it was.
pub get_or_upload_emoji-Uploaded :
    (homeserver_url : String) (encode : String → String) (id name : String) (animated : Bool)
    (env : Env) (s : State)
    → Post
        (λ url u.
          (k : String) → uploaded u.emojis k ≡ (if id == k then some url else uploaded s.emojis k))
        (λ u. u.emojis ≡ s.emojis)
        (get_or_upload_emoji homeserver_url encode id name animated env s)
get_or_upload_emoji-Uploaded homeserver_url encode id name animated env s =
    (get_or_upload_emoji-Uploaded_lem homeserver_url encode s.emojis id name animated).at env s refl

-- no request was made, and the emoji table is as it was
abbrev pub Untouched : State → State → Type 0
Untouched s u = (u.calls ≡ s.calls) × (u.emojis ≡ s.emojis)

module _ (homeserver_url : String) (encode : String → String) (id name : String) (animated : Bool)
    (s : State) where
  abbrev Unasked : State → Type 0
  Unasked u = Untouched s u

  cached-Unasked :
      (url : String) (o : Option EmojiMapping)
      → uploaded s.emojis id ≡ some url
      → Triple
          (λ u. (o ≡ get_emoji_by_slack_id s.emojis id) × Unasked u)
          (or_upload homeserver_url encode id name animated o)
          (λ url' u. (url' ≡ url) × Unasked u)
          Unasked
  cached-Unasked url none e = record {
    at = λ env u h.
        absurd (ground (arith, ap (map_option (λ (x : EmojiMapping). x.mxc_url)) h.0, e));
  }
  cached-Unasked url (some cached) e = Triple-pure cached.mxc_url λ u h. (
    some-injective cached.mxc_url url (ap (map_option (λ (x : EmojiMapping). x.mxc_url)) h.0 ∙ e),
    h.1,
  )

  get_or_upload_emoji-Unasked :
      (url : String)
      → uploaded s.emojis id ≡ some url
      → Triple Unasked
          (get_or_upload_emoji homeserver_url encode id name animated)
          (λ url' u. (url' ≡ url) × Unasked u)
          Unasked
  unfolding get_or_upload_emoji
  get_or_upload_emoji-Unasked url e =
      Triple-if (not (is_numerical id)) _ _ (λ _. Triple-raise _ λ s h. h)
        (λ _.
          Triple-bind {Q = λ o u. (o ≡ get_emoji_by_slack_id s.emojis id) × Unasked u} _ _
            (Triple-query _ (λ u h. (ap (λ x. get_emoji_by_slack_id x id) h.1, h)) (λ u h. h))
            (λ o. cached-Unasked url o e))

  -- For an id that has an address in the emoji table, get_or_upload_emoji makes no request and
  -- leaves the table as it was, and the address is what it returns where it returns one.
  pub get_or_upload_emoji-cached :
      (url : String) (env : Env)
      → uploaded s.emojis id ≡ some url
      → Post
          (λ url' u. (url' ≡ url) × Untouched s u)
          (Untouched s)
          (get_or_upload_emoji homeserver_url encode id name animated env s)
  get_or_upload_emoji-cached url env e = (get_or_upload_emoji-Unasked url e).at env s (refl, refl)
