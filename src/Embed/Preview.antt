-- ===== src/Embed/Preview.antt =====
-- When a preview panics, and what it is otherwise.
use Prim.Native.String.{[], ◌∷◌}
use text.Mathlib.TextLemmas.{nil-append, cons-append}
use mathlib.Core.Option.{some-injective, map as map_option}
use matrix_bridge_slack.Prelude.{
  ℕ, ◌-◌, ◌≤◌, ◌≡◌, ◌⊎◌, inl, inr, refl, ap, sym, subst, ◌∙◌, String, Char, code, Bool, true, false,
  Option, none, some, [], ◌∷◌, ltb, if◌then◌else◌, Bool-cases, arith,
}
use matrix_bridge_slack.Text.{◌⧺◌}
use matrix_bridge_slack.Embed.{
  byte_count, byte_len, byte_prefix, preview, SlackEmbed, add_field, authored,
  build_matrix_message_embed,
}

-- a start of the text, of that many bytes
abbrev pub Starts : String → ℕ → String → Type 0
Starts s n p = (rest : String) × ((s ≡ p ⧺ rest) × (byte_len p ≡ n))

empty_start : (s p : String) (n : ℕ) → ltb 0 n ≡ false → some [] ≡ some p → Starts s n p
unfolding byte_len
empty_start s p n h e =
    subst (Starts s n) (some-injective [] p e) (s, (sym (nil-append s), ground (arith, h)))

more_start :
    (c : Char) (s p : String) (n : ℕ) (o : Option String)
    → ltb n (byte_count (code c)) ≡ false
    → ((q : String) → o ≡ some q → Starts s (n - byte_count (code c)) q)
    → map_option (λ q. c ∷ q) o ≡ some p
    → Starts (c ∷ s) n p
unfolding byte_len
more_start c s p n none long rest e = absurd (ground (arith, e))
more_start c s p n (some q) long rest e =
    let (tail, (same, count)) = rest q refl in
    subst (Starts (c ∷ s) n) (some-injective (c ∷ q) p e)
      (tail, (ap (λ x. c ∷ x) same ∙ sym (cons-append c q tail), ground (arith, long, count)))

byte_prefix-Starts : (s p : String) (n : ℕ) → byte_prefix s n ≡ some p → Starts s n p
unfolding byte_prefix byte_len
byte_prefix-Starts [] p n e = elim (Bool-cases (ltb 0 n)) [
  | inl h ↦ absurd (ground (arith, rw h at e))
  | inr h ↦ empty_start "" p n h (rw h at e)
]
byte_prefix-Starts (c ∷ s) p n e = elim (Bool-cases (ltb 0 n)) [
  | inr h ↦ empty_start (c ∷ s) p n h (rw h at e)
  | inl h ↦ elim (Bool-cases (ltb n (byte_count (code c)))) [
    | inl short ↦ absurd (ground (arith, rw (h, short) at e))
    | inr long ↦
        more_start c s p n (byte_prefix s (n - byte_count (code c))) long
          (λ q. byte_prefix-Starts s q (n - byte_count (code c))) (rw (h, long) at e)
  ]
]

-- a text of characters of one byte
unfoldable pub is_ascii : String → Bool
is_ascii [] = true
is_ascii (c ∷ s) = let rest = is_ascii s in if ltb (code c) 128 then rest else false

byte_prefix-ascii :
    (s : String) (n : ℕ)
    → is_ascii s ≡ true
    → n ≤ byte_len s
    → (p : String) × (byte_prefix s n ≡ some p)
unfolding byte_prefix byte_len is_ascii
byte_prefix-ascii [] n a h = ([], ground (arith, h))
byte_prefix-ascii (c ∷ s) n a h = elim (Bool-cases (ltb 0 n)) [
  | inr none_left ↦ ([], rw none_left refl)
  | inl some_left ↦
      let ascii : ltb (code c) 128 ≡ true = ground (arith, a) in
      let fits : ltb n (byte_count (code c)) ≡ false = ground (arith, ascii, some_left) in
      let (p, e) =
        byte_prefix-ascii s (n - byte_count (code c)) (rw ascii at a) (ground (arith, ascii, h)) in
      (c ∷ p, rw (some_left, fits, e) refl)
]

-- a text of at most a hundred bytes, or a start of a hundred bytes with dots after it
abbrev pub Previewed : String → String → Type 0
Previewed body p =
    ((p ≡ body) × (byte_len body ≤ 100))
    ⊎ ((head : String) × (Starts body 100 head × (p ≡ head ⧺ "...")))

preview-Previewed :
    (body : String)
    → is_ascii body ≡ true
    → (p : String) × ((preview body ≡ some p) × Previewed body p)
unfolding preview
preview-Previewed body a = elim (Bool-cases (ltb 100 (byte_len body))) [
  | inl long ↦
      let (head, e) = byte_prefix-ascii body 100 a (ground (arith, long)) in
      (head ⧺ "...", (rw (long, e) refl, inr (head, (byte_prefix-Starts body head 100 e, refl))))
  | inr short ↦ (body, (rw short refl, inl (refl, ground (arith, short))))
]

-- For a reply to an ASCII text, build_matrix_message_embed does not panic, and the embed has one
-- field, with the sender of that text and with the text itself if it is at most 100 bytes long, or
-- else with its first 100 bytes and three dots.
pub build_matrix_message_embed-fields :
    (name : String) (avatar : Option String) (body sender reply_body : String)
    → is_ascii reply_body ≡ true
    → (embed : SlackEmbed) × ((build_matrix_message_embed name avatar body
            (some (sender, reply_body))
          ≡ some embed)
        × ((p : String) × (Previewed reply_body p
              × (embed.fields
                  ≡ record { name = "Replying to " ⧺ sender; value = p; inline = false } ∷ []))))
unfolding build_matrix_message_embed
build_matrix_message_embed-fields name avatar body sender reply_body a =
    let (p, (e, shown)) = preview-Previewed reply_body a in
    (
      add_field ("Replying to " ⧺ sender) p false (authored name avatar body),
      (
        ap
            (map_option
              (λ x. add_field ("Replying to " ⧺ sender) x false (authored name avatar body)))
            e,
        (p, (shown, refl)),
      ),
    )
