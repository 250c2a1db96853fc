-- ===== src/SlackParser/Lists/Closed.antt =====
-- What convert_lists_to_html gives, against the grammar of HTML.
use text.Mathlib.TextLemmas.{append_assoc, nil-append}
use matrix_bridge_slack.Prelude.{
  ℕ, ◌≡◌, refl, ap, sym, subst, ◌∙◌, String, Bool, true, false, some, List, [], ◌∷◌, All,
  Option-cases, inl, inr,
}
use matrix_bridge_slack.Text.{◌⧺◌, contains_char}
use matrix_bridge_slack.Text.Replace.{lines}
use matrix_bridge_slack.Blocks.Html.{IsText, IsText-nil, Tag, Html}
use matrix_bridge_slack.Blocks.Safe.{literal}
use matrix_bridge_slack.SlackParser.{
  Captures, group, Regex, unordered_list_regex, ordered_list_regex,
}
use matrix_bridge_slack.SlackParser.Lists.{
  item, close_if, open_if, lists_from, convert_lists_to_html,
}

-- HTML up to the end of an ordered list, if one is open
Outer : Bool → String → Type 0
Outer false s = Html s
Outer true s =
    (inner : String) × ((rest : String) × (Html inner × (Html rest × (s ≡ inner ⧺ "</ol>" ⧺ rest))))

-- and up to the end of an unordered list inside it
Open : Bool → Bool → String → Type 0
Open false o s = Outer o s
Open true o s =
    (inner : String) × ((rest : String) × (Html inner
        × (Outer o rest × (s ≡ inner ⧺ "</ul>" ⧺ rest))))

prepend-Outer : (o : Bool) (a s : String) → Html a → Outer o s → Outer o (a ⧺ s)
unfolding Outer
prepend-Outer false a s ha hs = Html.append a s ha hs
prepend-Outer true a s ha (inner, (rest, (hi, (hr, e)))) = (
  a ⧺ inner,
  (rest, (Html.append a inner ha hi, (hr, ap (λ x. a ⧺ x) e ∙ sym (append_assoc a inner _)))),
)

prepend-Open : (u o : Bool) (a s : String) → Html a → Open u o s → Open u o (a ⧺ s)
unfolding Open
prepend-Open false o a s ha hs = prepend-Outer o a s ha hs
prepend-Open true o a s ha (inner, (rest, (hi, (hr, e)))) = (
  a ⧺ inner,
  (rest, (Html.append a inner ha hi, (hr, ap (λ x. a ⧺ x) e ∙ sym (append_assoc a inner _)))),
)

nothing : Html ""
nothing = Html.text "" IsText-nil

close_ol : (o : Bool) (s : String) → Html s → Outer o (close_if o "</ol>" ⧺ s)
unfolding Outer
close_ol false s h = Html.append "" s nothing h
close_ol true s h = ("", (s, (nothing, (h, sym (nil-append _)))))

close_ul : (u o : Bool) (s : String) → Outer o s → Open u o (close_if u "</ul>" ⧺ s)
unfolding Open
close_ul false o s h = prepend-Outer o "" s nothing h
close_ul true o s h = ("", (s, (nothing, (h, sym (nil-append _)))))

closed : (a inner c rest s : String) → s ≡ inner ⧺ c ⧺ rest → (a ⧺ inner ⧺ c) ⧺ rest ≡ a ⧺ s
closed a inner c rest s e =
    append_assoc a (inner ⧺ c) rest ∙ ap (λ x. a ⧺ x) (append_assoc inner c rest ∙ sym e)

ol_start : (o : Bool) (s : String) → Outer true s → Outer o (open_if o "<ol>" ⧺ s)
unfolding Outer
ol_start true s h = prepend-Outer true "" s nothing h
ol_start false s (inner, (rest, (hi, (hr, e)))) =
    subst Html (closed "<ol>" inner "</ol>" rest s e)
      (Html.append _ rest (Html.element "<ol>" inner "</ol>" Tag.ordered hi) hr)

ul_start : (u o : Bool) (s : String) → Open true o s → Open u o (open_if u "<ul>" ⧺ s)
unfolding Open
ul_start true o s h = prepend-Open true o "" s nothing h
ul_start false o s (inner, (rest, (hi, (hr, e)))) =
    subst (Outer o) (closed "<ul>" inner "</ul>" rest s e)
      (prepend-Outer o _ rest (Html.element "<ul>" inner "</ul>" Tag.unordered hi) hr)

item-Html : (text : String) → IsText text → Html (item text)
item-Html text h = Html.element "<li>" text "</li>" Tag.item (Html.text text h)

line-Html : (line : String) → IsText line → Html (line ⧺ "\n")
unfolding contains_char
line-Html line h = Html.append line "\n" (Html.text line h) (literal "\n" refl refl)

end_ol : (o : Bool) → Outer o (close_if o "</ol>")
unfolding Outer
end_ol false = nothing
end_ol true = ("", ("", (nothing, (nothing, refl))))

module _ (regex : Regex)
    (captured : (pattern line : String) (caps : Captures) (i : ℕ)
      → regex.captures pattern line ≡ some caps
      → IsText line
      → IsText (group caps i)) where
  lists_from-Open :
      (u o : Bool) (ls : List String) → All IsText ls → Open u o (lists_from regex u o ls)
  unfolding lists_from Open Outer
  lists_from-Open u o [] h = close_ul u o _ (end_ol o)
  lists_from-Open u o (line ∷ more) (h, hs) =
      elim (Option-cases (regex.captures unordered_list_regex line)) [
        | inr (caps, e) ↦
            let li = item-Html _ (captured unordered_list_regex line caps 1 e h) in
            rw (e, lists_from)
              (ul_start u o _ (prepend-Open true o _ _ li (lists_from-Open true o more hs)))
        | inl none_u ↦ elim (Option-cases (regex.captures ordered_list_regex line)) [
          | inr (caps, e) ↦
              let li = item-Html _ (captured ordered_list_regex line caps 2 e h) in
              rw (none_u, e, lists_from)
                (close_ul u o _
                  (ol_start o _ (prepend-Outer true _ _ li (lists_from-Open false true more hs))))
          | inl none_o ↦
              rw (none_u, none_o, lists_from)
                (close_ul u o _ (
                  close_ol o _
                    (Html.append _ _ (line-Html line h) (lists_from-Open false false more hs))))
        ]
      ]

  -- Where a group of a match holds an angle bracket only if its line does, and no line of a text
  -- has one, what convert_lists_to_html makes of the text is HTML of a fixed grammar: what is
  -- opened is closed, in the order of nesting.
  pub convert_lists_to_html-Html :
      (text : String) → All IsText (lines text) → Html (convert_lists_to_html regex text)
  unfolding convert_lists_to_html Open Outer
  convert_lists_to_html-Html text h = lists_from-Open false false (lines text) h
