-- ===== src/Tests/Picking.antt =====
-- Which tag is picked, at concrete tags.
use argocd_tag_updater.Base.{
  ◌≡◌, ◌≢◌, arith, eq_iff, true, ◌↔◌, ◌⊎◌, inl, inr, refl, ◌∷◌, [], String, false, none, some, ok,
  List, Member, All,
}
use argocd_tag_updater.Base.Int.{pos, ◌≤ℤ◌}
use argocd_tag_updater.Matcher.{Match, Matcher, latest, all, text_gt, build_number}
use argocd_tag_updater.Matcher.Order.{IsNumbered}
use argocd_tag_updater.Matcher.Sort.{insertion_sort, insertion_sort-IsSortSlice}
use argocd_tag_updater.Matcher.Latest.{
  IsMatchOf, latest-IsMatchOf, latest_greatest, latest_last_text, latest-eq-none_iff,
}
use argocd_tag_updater.Sources.{Source, git}
use argocd_tag_updater.Controller.Env.{State}
use argocd_tag_updater.Controller.Select.{select_release}
use argocd_tag_updater.Controller.Select.Unskipped.{IsSelected, select_release-IsSelected}
use argocd_tag_updater.Controller.Skips.{
  filter_skipped, append_unique, IsDistinct, Member-filter_skipped, append_unique-IsDistinct,
}
use argocd_tag_updater.Tests.World.{world, updater, status, start, tag_expression}
use argocd_tag_updater.Tests.Run.{checked}

abbrev matcher : Matcher
matcher = record { re = tag_expression }

abbrev tags : List String
tags = "v1" ∷ "latest" ∷ "v2" ∷ []

abbrev first : Match
first = record { tag = "v1"; captures = ("n", "1") ∷ [] }

abbrev second : Match
second = record { tag = "v2"; captures = ("n", "2") ∷ [] }

picked : latest insertion_sort matcher tags ≡ some second
unfolding checked
picked = refl

number_first : build_number first ≡ some (pos 1)
unfolding checked
number_first = refl

number_second : build_number second ≡ some (pos 2)
unfolding checked
number_second = refl

has_first : Member first (all matcher tags)
unfolding checked
has_first = inl refl

all-IsNumbered : All IsNumbered (all matcher tags)
unfolding checked
all-IsNumbered = ((pos 1, number_first), ((pos 2, number_second), tt))

latest_greatest_example : pos 1 ≤ℤ pos 2
unfolding checked
latest_greatest_example =
    latest_greatest insertion_sort insertion_sort-IsSortSlice matcher tags second first (pos 2)
      (pos 1) all-IsNumbered picked has_first number_second number_first

latest-IsMatchOf_example : IsMatchOf matcher tags second
latest-IsMatchOf_example =
    latest-IsMatchOf insertion_sort insertion_sort-IsSortSlice matcher tags second picked

latest-eq-none_iff_example :
    (latest insertion_sort matcher ("latest" ∷ []) ≡ none)
    ↔ ((t : String) → Member t ("latest" ∷ []) → tag_expression.find_string_submatch t ≡ none)
latest-eq-none_iff_example =
    latest-eq-none_iff insertion_sort insertion_sort-IsSortSlice matcher ("latest" ∷ [])

-- An expression that captures no build number.
abbrev plain : Matcher
plain = record {
  re = record { subexp_names = "" ∷ []; find_string_submatch = λ tag. some (tag ∷ []) };
}

abbrev plain_match : String → Match
plain_match tag = record { tag = tag; captures = [] }

plain_picked : latest insertion_sort plain ("a" ∷ "c" ∷ "b" ∷ []) ≡ some (plain_match "c")
unfolding checked
plain_picked = refl

no_number : (tag : String) → build_number (plain_match tag) ≡ none
unfolding checked
no_number tag = refl

latest_last_text_example : text_gt "b" "c" ≡ false
unfolding checked
latest_last_text_example =
    latest_last_text insertion_sort insertion_sort-IsSortSlice plain ("a" ∷ "c" ∷ "b" ∷ [])
      (plain_match "c") (plain_match "b") (no_number "a", (no_number "c", (no_number "b", tt)))
      plain_picked (inr (inr (inl refl)))

Member-filter_skipped_example :
    Member {A = String} "v1" (filter_skipped tags ("v2" ∷ []))
    ↔ (Member {A = String} "v1" tags × ¬ Member {A = String} "v1" ("v2" ∷ []))
Member-filter_skipped_example = Member-filter_skipped tags ("v2" ∷ []) "v1"

other : ◌≢◌ {A = String} "latest" "v1"
other p = cc

third : ◌≢◌ {A = String} "v2" "v1"
third p = absurd (ne ((eq_iff "v2" "v1").1 p))
  where
    ne : false ≢ true
    ne e = cc

late : ◌≢◌ {A = String} "v2" "latest"
late p = cc

tags-IsDistinct : IsDistinct tags
tags-IsDistinct =
    (λ m. ground (arith, m, other, third), (λ m. ground (arith, m, late), (λ m. m, tt)))

append_unique-IsDistinct_example :
    IsDistinct (append_unique tags "v1")
    × ((tag : String) → Member tag (append_unique tags "v1") ↔ (Member tag tags ⊎ ("v1" ≡ tag)))
append_unique-IsDistinct_example = append_unique-IsDistinct tags "v1" tags-IsDistinct

-- The newest tag was rolled back before.
abbrev burnt : State
burnt = record start { status = record status { skipped_tags = "v2" ∷ [] } }

abbrev source : Source
source = git (record {
  repo = "git@github.com:shop/web.git";
  ssh_key_file = "";
  token = "";
  known_hosts_file = "";
  insecure_ignore_host_key = false;
})

selects_older : (select_release world "shop/web" updater source burnt).0 ≡ ok first
unfolding checked
selects_older = refl

select_release-IsSelected_example :
    IsSelected world updater source burnt first × ¬ Member {A = String} "v1" ("v2" ∷ [])
select_release-IsSelected_example =
    select_release-IsSelected world "shop/web" updater source burnt first insertion_sort-IsSortSlice
      selects_older
