-- ===== src/Http/Listed.antt =====
-- The interface to `HeaderMap`, met by a list of entries.
use barebones_reverse_proxy.Prelude.{
  ◌≡◌, refl, sym, ap, ◌∙◌, false, some, List, [], ◌∷◌, ◌++◌, if◌then◌else◌, Bool-cases, inl, inr,
  Text, text_eq, text_eq_iff, arith,
}
use barebones_reverse_proxy.Http.{HeaderMaps, values_of}

abbrev pub Headers : Type 0
Headers = List (Text × Text)

unfoldable pub without : Text → Headers → Headers
without name [] = []
without name ((n, v) ∷ m) =
    let rest = without name m in if text_eq n name then rest else (n, v) ∷ rest

values_of-without_self : (name : Text) (m : Headers) → values_of name (without name m) ≡ []
unfolding values_of without
values_of-without_self name [] = refl
values_of-without_self name ((n, v) ∷ m) = ground (arith, values_of-without_self name m)

values_of-without :
    (name key : Text) (m : Headers)
    → text_eq name key ≡ false
    → values_of key (without name m) ≡ values_of key m
unfolding values_of without
values_of-without name key [] h = refl
values_of-without name key ((n, v) ∷ m) h = elim (Bool-cases (text_eq n name)) [
  | inr other ↦ ground (arith, other, values_of-without name key m h)
  | inl same ↦
      let e : text_eq n key ≡ false = ap (λ t. text_eq t key) ((text_eq_iff n name).0 same) ∙ h in
      rw (same, e) (values_of-without name key m h)
]

pub insert_values :
    (name key v : Text) (m : Headers)
    → values_of key ((name, v) ∷ without name m)
      ≡ (if text_eq name key then v ∷ [] else values_of key m)
unfolding values_of
insert_values name key v m = elim (Bool-cases (text_eq name key)) [
  | inr other ↦ rw other (values_of-without name key m other)
  | inl same ↦
      let e : key ≡ name = sym ((text_eq_iff name key).0 same) in
      let none_left : values_of key (without name m) ≡ [] =
        ap (λ k. values_of k (without name m)) e ∙ values_of-without_self name m in
      rw (same, none_left)
]

pub append_values :
    (name key v : Text) (m : Headers)
    → values_of key (m ++ ((name, v) ∷ []))
      ≡ (if text_eq name key then values_of key m ++ (v ∷ []) else values_of key m)
unfolding values_of
append_values name key v [] = elim (Bool-cases (text_eq name key)) [ inl e ↦ rw e | inr e ↦ rw e ]
append_values name key v ((n, w) ∷ m) = elim (Bool-cases (text_eq n key)) [
  | inl here ↦ elim (Bool-cases (text_eq name key)) [
    | inl e ↦ rw (here, append_values name key v m, e)
    | inr e ↦ rw (here, append_values name key v m, e)
  ]
  | inr other ↦ rw other (append_values name key v m)
]

pub values_of_nil : (name : Text) → values_of {V = Text} name [] ≡ []
unfolding values_of
values_of_nil name = refl

abbrev pub listed : HeaderMaps
listed = record {
  HeaderMap = Headers;
  HeaderValue = Text;
  to_str = λ v. some v;
  from_str = λ t. some t;
  from_static = λ t. t;
  new = [];
  get_all = values_of;
  insert = λ name v m. (name, v) ∷ without name m;
  append = λ name v m. m ++ ((name, v) ∷ []);
  iter = λ m. m;
  new_values = values_of_nil;
  insert_values = insert_values;
  append_values = append_values;
  iter_values = λ name m. refl;
}
