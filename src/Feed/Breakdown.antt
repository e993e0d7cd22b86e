-- ===== src/Feed/Breakdown.antt =====
-- The counts of categories in workBreakdown of frontend/src/components/ActivityFeed.tsx.
use mini_agent_oscoder.Prelude.{
  ◌≡◌, refl, ap, ◌∙◌, arith, inl, inr, ℕ, ◌+◌, Bool, ◌||◌, Bool-cases, List, [], ◌∷◌, map, Text,
  lit, text_eq, eq_of_text_eq, or_default, keep, length, take, ltb, join, if◌then◌else◌,
}
use mini_agent_oscoder.Diff.{map_option}
use mini_agent_oscoder.WorkItems.{WorkItem, WorkItemCategory}
use mini_agent_oscoder.WorkItems.Describe.{Translator}
use mini_agent_oscoder.Keyed.{put, get-put, has-put}
use mini_agent_oscoder.Keyed
use mini_agent_oscoder.Feed.{
  category_name, name_of, CategoryCount, count_in, add_category, add_items, priority, counted_part,
  work_breakdown,
}

-- How many items are of a category.
abbrev pub count_of : WorkItemCategory → List WorkItem → ℕ
count_of c items =
    length (keep (λ item. text_eq (category_name item.category) (category_name c)) items)

abbrev count_at : Text → List CategoryCount → ℕ
count_at name counts =
    or_default (map_option (λ entry. entry.count) (Keyed.get name_of name counts)) 0

-- What `add_category` sets.
abbrev added : WorkItemCategory → List CategoryCount → CategoryCount
added c counts = record { category = c; count = count_in c counts + 1 }

add_category-count_in :
    (c d : WorkItemCategory) (counts : List CategoryCount)
    → count_in c (add_category counts d)
      ≡ count_in c counts + (if text_eq (category_name d) (category_name c) then 1 else 0)
unfolding add_category
add_category-count_in c d counts = elim (Bool-cases (text_eq (category_name d) (category_name c))) [
  | inl e ↦
      rw (get-put name_of (category_name c) counts (added d counts), e)
        (ap (λ name. count_at name counts + 1)
          (eq_of_text_eq (category_name d) (category_name c) e))
  | inr e ↦ rw (get-put name_of (category_name c) counts (added d counts), e) (omega arith)
]

add_items-count_in :
    (c : WorkItemCategory) (counts : List CategoryCount) (items : List WorkItem)
    → count_in c (add_items counts items) ≡ count_in c counts + count_of c items
unfolding add_items
add_items-count_in c counts [] = omega arith
add_items-count_in c counts (item ∷ items) = ground (
  arith,
  add_items-count_in c (add_category counts item.category) items,
  add_category-count_in c item.category counts,
)

add_items-has :
    (c : WorkItemCategory) (counts : List CategoryCount) (items : List WorkItem)
    → Keyed.has name_of (category_name c) (add_items counts items)
      ≡ (Keyed.has name_of (category_name c) counts || ltb 0 (count_of c items))
unfolding add_items add_category
add_items-has c counts [] = ground arith
add_items-has c counts (item ∷ items) = ground (
  arith,
  add_items-has c (add_category counts item.category) items,
  has-put name_of (category_name c) counts (added item.category counts),
)

-- The part of a category: its label and how many items there are of it.
add_items-count_of :
    (c : WorkItemCategory) (items : List WorkItem)
    → count_in c (add_items [] items) ≡ count_of c items
add_items-count_of c items = add_items-count_in c [] items ∙ unfold Keyed.get in omega arith

add_items-listed :
    (c : WorkItemCategory) (items : List WorkItem)
    → Keyed.has name_of (category_name c) (add_items [] items) ≡ ltb 0 (count_of c items)
add_items-listed c items = add_items-has c [] items ∙ unfold Keyed.has in refl

keep-agree :
    {A : Type 0} (p q : A → Bool) → ((a : A) → p a ≡ q a) → (xs : List A) → keep p xs ≡ keep q xs
keep-agree p q h [] = refl
keep-agree p q h (x ∷ xs) = rw (h x, keep-agree p q h xs) refl

map-agree :
    {A B : Type 0} (f g : A → B) → ((a : A) → f a ≡ g a) → (xs : List A) → map f xs ≡ map g xs
map-agree f g h [] = refl
map-agree f g h (x ∷ xs) = rw (h x, map-agree f g h xs) refl

-- The summary of a feed that has items names the first three categories, in the order of their
-- importance, of which there are items, and with each of them the number of its items.
pub work_breakdown-counts :
    (t : Translator) (item : WorkItem) (items : List WorkItem)
    → work_breakdown t (item ∷ items)
      ≡ join (lit " · ") (
          map
            (λ c. counted_part t c (count_of c (item ∷ items)))
            (take 3 (keep (λ c. ltb 0 (count_of c (item ∷ items))) priority)))
unfolding work_breakdown
work_breakdown-counts t item items =
    rw
      (keep-agree (λ c. Keyed.has name_of (category_name c) (add_items [] (item ∷ items)))
        (λ c. ltb 0 (count_of c (item ∷ items))) (λ c. add_items-listed c (item ∷ items)) priority)
      (ap (join (lit " · "))
        (map-agree _ _ (λ c. ap (counted_part t c) (add_items-count_of c (item ∷ items))) _))
