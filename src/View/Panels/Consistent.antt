-- ===== src/View/Panels/Consistent.antt =====
-- The lists of a browser's panel (src/view-client.cpp) belong together, so that no handler reads
-- beyond their ends.
use remy.Base.{
  ℕ, zero, suc, ◌+◌, ◌-◌, ◌≤◌, ◌<◌, ◌≡◌, refl, ap, sym, ◌∙◌, Bool, true, false, not, List, [], ◌∷◌,
  ◌++◌, map, some, arith, ltb, length, length-append, length-modify, length-replicate, get_elem?,
  drop, inl, inr, ◌⊎◌, Bool-cases, All,
}
use remy.Base.Options.{bind_some}
use remy.Wire.{Text, Dentry, RemoteDentries}
use remy.Utils.Duration.{codes}
use remy.View.Dents.{insert, sort_dents}
use remy.View.State.{Browser}
use remy.View.Panels.{
  resize_one, no_metainfo, list_dents, toggle, move_to, chosen, highlighted, or_highlighted,
  collect_selected_dentries,
}
use mathlib.Core.Option

-- The entries are ".." and those of a directory; each has a mark, and metadata once there are any;
-- one of them is highlighted.
pub record IsConsistent (b : Browser) : Type 0 where
  pub names : List Text
  pub basenames : b.basenames ≡ codes ".." ∷ names
  pub marks : length b.selected_dentries ≡ suc (length names)
  pub metas : length names ≤ length b.metas - 1
  pub index : b.menu_index ≤ length names

length-insert : (d : Dentry) (es : List Dentry) → length (insert d es) ≡ suc (length es)
unfolding insert
length-insert d [] = refl
length-insert d (e ∷ es) = ground (arith, length-insert d es)

length-sort_dents : (ds : List Dentry) → length (sort_dents ds) ≡ length ds
unfolding sort_dents
length-sort_dents [] = refl
length-sort_dents (d ∷ ds) = length-insert d (sort_dents ds) ∙ ap suc (length-sort_dents ds)

pub length-map {ℓ κ} :
    {A : Type ℓ} {B : Type κ} (f : A → B) (xs : List A) → length (map f xs) ≡ length xs
length-map f [] = refl
length-map f (x ∷ xs) = ap suc (length-map f xs)

length-resize_one {ℓ} : {A : Type ℓ} (a : A) (xs : List A) → length (resize_one a xs) ≡ 1
length-resize_one a [] = refl
length-resize_one a (x ∷ xs) = refl

pub list_dents-IsConsistent :
    (path : Text) (dents : List Dentry) (b : Browser)
    → IsConsistent b
    → IsConsistent (list_dents path dents b)
unfolding list_dents
list_dents-IsConsistent path dents b ok =
    let sorted = sort_dents dents in
    let same = length-map (λ (d : Dentry). d.basename) sorted ∙ length-sort_dents dents in
    record {
      names = map (λ d. d.basename) sorted;
      basenames =
          ap (λ (ns : List Text). resize_one [] ns ++ map (λ d. d.basename) sorted) ok.basenames;
      marks = omega (arith, length-replicate (length dents + 1) false, same);
      metas = omega (
        arith,
        length-append (resize_one no_metainfo b.metas) (map (λ d. d.metainfo) sorted),
        length-resize_one no_metainfo b.metas,
        length-map (λ (d : Dentry). d.metainfo) sorted,
        length-map (λ (d : Dentry). d.basename) sorted,
      );
      index = omega arith;
    }

pub toggle-IsConsistent : (b : Browser) → IsConsistent b → IsConsistent (toggle b)
unfolding toggle
toggle-IsConsistent b ok = elim (Bool-cases (ltb 0 b.menu_index)) [
  | inl below ↦ rw below (record {
    names = ok.names;
    basenames = ok.basenames;
    marks = length-modify b.selected_dentries b.menu_index not ∙ ok.marks;
    metas = ok.metas;
    index = omega (arith, ap length ok.basenames);
  })
  | inr at_top ↦ rw at_top ok
]

pub move_to-IsConsistent :
    (index : ℕ) (b : Browser) → IsConsistent b → IsConsistent (move_to index b)
unfolding move_to
move_to-IsConsistent index b ok = record {
  names = ok.names;
  basenames = ok.basenames;
  marks = ok.marks;
  metas = ok.metas;
  index = omega (arith, ap length ok.basenames);
}

-- Every one of `xs` is one of `ys`.
abbrev pub AreAmong : List Text → List Text → Type 0
AreAmong xs ys = All (λ x. (i : ℕ) × (get_elem? ys i ≡ some x)) xs

among_more : (xs ys : List Text) (y : Text) → AreAmong xs ys → AreAmong xs (y ∷ ys)
among_more [] ys y h = tt
among_more (x ∷ xs) ys y ((i, at), others) = ((suc i, at), among_more xs ys y others)

among_self : (xs : List Text) → AreAmong xs xs
among_self [] = tt
among_self (x ∷ xs) = ((zero, refl), among_more xs xs x (among_self xs))

chosen_lem :
    (marks : List Bool) (names : List Text)
    → length marks ≡ length names
    → (ns : List Text) × (chosen marks names ≡ some ns) × AreAmong ns names
unfolding chosen
chosen_lem [] names e = ([], refl, tt)
chosen_lem (m ∷ marks) [] e = absurd (omega (arith, e))
chosen_lem (false ∷ marks) (n ∷ names) e =
    let (ns, run, among) = chosen_lem marks names (omega (arith, e)) in
    (ns, run, among_more ns names n among)
chosen_lem (true ∷ marks) (n ∷ names) e =
    let (ns, run, among) = chosen_lem marks names (omega (arith, e)) in
    (n ∷ ns, ap (Option.map (λ ns. n ∷ ns)) run, ((zero, refl), among_more ns names n among))

pub get_elem?-in_range {ℓ} :
    {A : Type ℓ} (xs : List A) (i : ℕ) → i < length xs → (x : A) × (get_elem? xs i ≡ some x)
get_elem?-in_range [] i h = absurd (omega arith)
get_elem?-in_range (x ∷ xs) zero h = (x, refl)
get_elem?-in_range (x ∷ xs) (suc i) h = get_elem?-in_range xs i (omega arith)

-- What a dialog is to work on: entries of the panel, and some if there are some.
record IsChoice (b : Browser) (ns : List Text) : Type 0 where
  among : AreAmong ns (drop 1 b.basenames)
  some_if_any : (0 < length ns) ⊎ (drop 1 b.basenames ≡ [])

some_or_none : (ns : List Text) → (0 < length ns) ⊎ (ns ≡ [])
some_or_none [] = inr refl
some_or_none (n ∷ ns) = inl (omega arith)

IsChoice-all : (b : Browser) → IsChoice b (drop 1 b.basenames)
IsChoice-all b = record {
  among = among_self (drop 1 b.basenames);
  some_if_any = some_or_none (drop 1 b.basenames);
}

highlighted_lem :
    (b : Browser) (index : ℕ)
    → IsConsistent b
    → b.menu_index ≡ index
    → (ns : List Text) × (highlighted b ≡ some ns) × IsChoice b ns
highlighted_lem b zero ok e = (drop 1 b.basenames, rw e refl, IsChoice-all b)
highlighted_lem b (suc i) ok e =
    let (n, at) = get_elem?-in_range ok.names i (omega (arith, ok.index, e)) in
    (
      n ∷ [],
      rw e (rw ok.basenames (ap (Option.map (λ n. n ∷ [])) at)),
      record { among = ((i, rw ok.basenames at), tt); some_if_any = inl (omega arith) },
    )

or_highlighted_lem :
    (b : Browser) (marked : List Text)
    → IsConsistent b
    → AreAmong marked (drop 1 b.basenames)
    → (ns : List Text) × (or_highlighted b marked ≡ some ns) × IsChoice b ns
or_highlighted_lem b [] ok h = highlighted_lem b b.menu_index ok refl
or_highlighted_lem b (n ∷ ns) ok h =
    (n ∷ ns, refl, record { among = h; some_if_any = inl (omega arith) })

-- In a consistent panel the entries to work on can always be collected. They are of the panel's
-- client and directory, never "..", and there are none only in an empty directory.
pub collect_lem :
    (b : Browser)
    → IsConsistent b
    → (r : RemoteDentries) × (collect_selected_dentries b ≡ some r)
      × (r.id ≡ b.client_id)
      × (r.basedir ≡ b.cwd)
      × AreAmong r.dentries (drop 1 b.basenames)
      × ((0 < length r.dentries) ⊎ (drop 1 b.basenames ≡ []))
unfolding collect_selected_dentries
collect_lem b ok =
    let (marked, run, among) = chosen_lem (drop 1 b.selected_dentries) (drop 1 b.basenames) (
      same_lengths b.selected_dentries ok.names ok.marks
      ∙ ap (λ (ns : List Text). length (drop 1 ns)) (sym ok.basenames)) in
    let (ns, run_names, choice) = or_highlighted_lem b marked ok among in
    (
      record { id = b.client_id; basedir = b.cwd; dentries = ns },
      bind_some (chosen (drop 1 b.selected_dentries) (drop 1 b.basenames)) _ run
          (bind_some (or_highlighted b marked) _ run_names refl),
      refl,
      refl,
      choice.among,
      choice.some_if_any,
    )
  where
    same_lengths :
        (marks : List Bool) (names : List Text)
        → length marks ≡ suc (length names)
        → length (drop 1 marks) ≡ length names
    same_lengths [] names e = absurd (omega (arith, e))
    same_lengths (m ∷ marks) names e = omega (arith, e)
