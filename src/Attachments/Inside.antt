-- ===== src/Attachments/Inside.antt =====
-- Where the host writes an attachment.
use Prim.Native.Char.{code}
use Prim.Native.String.{◌∷◌ as cons, ◌++◌}
use mathlib.Core.List
use mathlib.Core.Path.{subst}
use aimclaw.Base.{
  String, str_eq, str_eq_iff, ◌≡◌, ◌≢◌, refl, sym, ap, ◌∙◌, Bool, true, false, not, ◌&&◌, ◌||◌,
  Option, none, some, List, [], ◌∷◌, ◌==◌, arith, Bool-cases, inl, inr,
}
use aimclaw.Text.{begins_with}
use aimclaw.Text.Paths.{
  split_on, enter, walk, reverse_onto, steps, resolve, relative, join, route, slashed, is_absolute,
}
use aimclaw.Text.Paths.Walks.{IsBelow, route-IsBelow, split_on-append}
use aimclaw.Attachments.{
  has_separator, is_safe_attachment_name, is_path_inside, Kind, Tree, contained, real_in, made_in,
  ensure_contained_inbox_dir, is_unsafe,
}

split_on-whole : (s : String) → has_separator s ≡ false → split_on "/" s ≡ s ∷ []
unfolding split_on has_separator
split_on-whole String.[] e = refl
split_on-whole (cons c s) e =
    let apart : (code c == 47) ≡ false = ground arith in
    let rest : has_separator s ≡ false = ground arith in rw (apart, split_on-whole s rest) refl

walk-append :
    (b : Bool) (seen ws : List String) (name : String)
    → enter b name (walk b seen ws) ≡ name ∷ walk b seen ws
    → walk b seen (List.◌++◌ ws (name ∷ [])) ≡ name ∷ walk b seen ws
unfolding walk
walk-append b seen [] name e = e
walk-append b seen (w ∷ ws) name e = walk-append b (enter b w seen) ws name e

reverse_onto-last :
    (xs ys : List String) (name : String)
    → reverse_onto xs (List.◌++◌ ys (name ∷ [])) ≡ List.◌++◌ (reverse_onto xs ys) (name ∷ [])
unfolding reverse_onto
reverse_onto-last [] ys name = refl
reverse_onto-last (x ∷ xs) ys name = reverse_onto-last xs (x ∷ ys) name

enter-name :
    (b : Bool) (name : String) (ws : List String)
    → is_safe_attachment_name name ≡ true
    → (enter b name ws ≡ name ∷ ws) × (has_separator name ≡ false)
unfolding enter is_safe_attachment_name
enter-name b name ws e = (ground arith, ground arith)

-- A safe name is one step, down from the directory.
steps-name :
    (dir name : String)
    → is_safe_attachment_name name ≡ true
    → steps true (dir ++ cons "/" name) ≡ List.◌++◌ (steps true dir) (name ∷ [])
unfolding steps
steps-name dir name e =
    let seen = walk true [] (split_on "/" dir) in
    let (down, whole) = enter-name true name seen e in
    let cut : split_on "/" (dir ++ cons "/" name) ≡ List.◌++◌ (split_on "/" dir) (name ∷ []) =
      split_on-append "/" dir name
      ∙ ap (List.◌++◌ (split_on "/" dir)) (split_on-whole name whole) in
    ap (λ ws. reverse_onto (walk true [] ws) []) cut
    ∙ (ap (λ ws. reverse_onto ws []) (walk-append true [] (split_on "/" dir) name down)
        ∙ reverse_onto-last seen [] name)

IsBelow-append : (xs ys zs : List String) → IsBelow xs ys → IsBelow xs (List.◌++◌ ys zs)
IsBelow-append [] ys zs h = tt
IsBelow-append (x ∷ xs) [] zs h = elim h [ ]
IsBelow-append (x ∷ xs) (y ∷ ys) zs (e, h) = (e, IsBelow-append xs ys zs h)

at_start : begins_with ".." "" ≡ false
unfolding begins_with
at_start = refl

goes_down :
    (way : String)
    → (str_eq way "" || (not (begins_with ".." way) && not (is_absolute way))) ≡ true
    → begins_with ".." way ≡ false
goes_down way e = elim (Bool-cases (str_eq way "")) [
  | inl h ↦ ap (begins_with "..") ((str_eq_iff way "").0 h) ∙ at_start
  | inr n ↦ ground arith
]

pub is_path_inside-IsBelow :
    (cwd parent child : String)
    → is_path_inside cwd parent child ≡ true
    → IsBelow (steps true (resolve cwd parent)) (steps true (resolve cwd child))
unfolding is_path_inside relative
is_path_inside-IsBelow cwd parent child e =
    route-IsBelow (steps true (resolve cwd parent)) (steps true (resolve cwd child)) (
      goes_down (slashed (route (steps true (resolve cwd parent)) (steps true (resolve cwd child))))
        e)

no_link : (k : Option Kind) → is_unsafe k ≡ false → k ≢ some Kind.symbolic_link
no_link k e link = cc (ap is_unsafe link, e)

module _ (cwd : String) (tree : Tree) (inbox_root : String) where
  real_in-IsBelow :
      (dir : String) (real root : Option String)
      → real_in cwd real root ≡ contained dir
      → (real ≡ some dir)
        × ((top : String) × ((root ≡ some top)
              × IsBelow (steps true (resolve cwd top)) (steps true (resolve cwd dir))))
  real_in-IsBelow dir none root e = cc
  real_in-IsBelow dir (some real) none e = cc
  real_in-IsBelow dir (some real) (some top) e = elim (Bool-cases (is_path_inside cwd top real)) [
    | inl h ↦
        let same : real ≡ dir = ground arith in
        (
          ap some same,
          (
            top,
            (
              refl,
              subst (λ d. IsBelow (steps true (resolve cwd top)) (steps true (resolve cwd d))) same
                  (is_path_inside-IsBelow cwd top real h),
            ),
          ),
        )
    | inr n ↦ ground arith
  ]

  made_in-IsBelow :
      (inbox_dir dir : String)
      → ((p q : String) → tree.realpath p ≡ some q → resolve cwd q ≡ q)
      → made_in cwd tree inbox_root inbox_dir ≡ contained dir
      → (tree.lstat inbox_root ≢ some Kind.symbolic_link)
        × (tree.lstat inbox_dir ≢ some Kind.symbolic_link)
        × ((top : String) × ((tree.realpath inbox_root ≡ some top)
              × IsBelow (steps true top) (steps true dir)))
  made_in-IsBelow inbox_dir dir real e =
      let passed : real_in cwd (tree.realpath inbox_dir) (tree.realpath inbox_root)
          ≡ contained dir =
        ground arith in
      let (at, (top, (of, below))) =
        real_in-IsBelow dir (tree.realpath inbox_dir) (tree.realpath inbox_root) passed in
      (
        no_link (tree.lstat inbox_root) (ground arith),
        no_link (tree.lstat inbox_dir) (ground arith),
        (
          top,
          (
            of,
            subst (λ t. IsBelow (steps true t) (steps true dir)) (real inbox_root top of)
                (subst (λ d. IsBelow (steps true (resolve cwd top)) (steps true d))
                  (real inbox_dir dir at) below),
          ),
        ),
      )

  -- The path of a file with a safe name stays in the inbox: when the guard answers with a directory, neither the
  -- inbox nor the directory was a symbolic link before it was made, and the path of the safe name under the
  -- directory is, name by name, below the path that the inbox really has. This is about paths: that no link
  -- stands at the name itself is left to the exclusive flag of the write. What realpath answers is
  -- absolute and has no superfluous pieces.
  pub ensure_contained_inbox_dir-IsBelow :
      (message_id dir name : String)
      → ((p q : String) → tree.realpath p ≡ some q → resolve cwd q ≡ q)
      → ensure_contained_inbox_dir cwd tree inbox_root message_id ≡ contained dir
      → is_safe_attachment_name name ≡ true
      → (tree.lstat inbox_root ≢ some Kind.symbolic_link)
        × (tree.lstat (join inbox_root message_id) ≢ some Kind.symbolic_link)
        × ((top : String) × ((tree.realpath inbox_root ≡ some top)
              × IsBelow (steps true top) (steps true (dir ++ cons "/" name))))
  unfolding ensure_contained_inbox_dir
  ensure_contained_inbox_dir-IsBelow message_id dir name real e safe =
      let (root_link, dir_link, (top, (of, under))) =
        made_in-IsBelow (join inbox_root message_id) dir real e in
      (
        root_link,
        dir_link,
        (
          top,
          (
            of,
            subst (IsBelow (steps true top)) (sym (steps-name dir name safe))
                (IsBelow-append (steps true top) (steps true dir) (name ∷ []) under),
          ),
        ),
      )
