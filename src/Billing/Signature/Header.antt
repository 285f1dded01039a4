-- ===== src/Billing/Signature/Header.antt =====
-- Reading a signature header back.
use moment_flow.Common.{
  ℕ, ◌==◌, ◌≡◌, refl, sym, ap, ◌∙◌, false, none, some, List, [], ◌∷◌, ◌++◌, All, arith, Text, str,
  is_space, lstrip, rstrip, strip, break_at, split_step, split_on, text_eq,
}
use mathlib.Core.List.{append_assoc, append-nil}
use moment_flow.Billing.Signature.{
  SignatureHeader, add_pair, add_part, add_parts, parse_signature_header,
}

-- A text with no comma and no space in it, such as a number or hexadecimal digits.
abbrev pub IsPlain : Text → Type 0
IsPlain = All (λ (c : ℕ). ((c == b',') ≡ false) × (is_space c ≡ false))

rstrip-plain : (s : Text) → IsPlain s → rstrip s ≡ s
unfolding rstrip
rstrip-plain [] h = refl
rstrip-plain (c ∷ s) h = ground (arith, rstrip-plain s h.1)

strip-plain : (s : Text) → IsPlain s → strip s ≡ s
unfolding strip lstrip
strip-plain [] h = rstrip-plain [] h
strip-plain (c ∷ s) h = ground (arith, rstrip-plain (c ∷ s) h)

split_on-plain : (s : Text) → IsPlain s → split_on b',' s ≡ s ∷ []
unfolding split_on split_step
split_on-plain [] h = refl
split_on-plain (c ∷ s) h = rw (h.0.0, split_on-plain s h.1)

split_on-comma :
    (s rest : Text) → IsPlain s → split_on b',' (s ++ b',' ∷ rest) ≡ s ∷ split_on b',' rest
unfolding split_on split_step
split_on-comma [] rest h = refl
split_on-comma (c ∷ s) rest h = rw (h.0.0, split_on-comma s rest h.1)

-- The header that a sender writes: the timestamp, then each signature.
pub render_signatures : List Text → Text
render_signatures [] = []
render_signatures (v ∷ vs) = str ",v1=" ++ (v ++ render_signatures vs)

pub render_header : Text → List Text → Text
render_header t vs = str "t=" ++ (t ++ render_signatures vs)

v1_part-IsPlain : (v : Text) → IsPlain v → IsPlain (str "v1=" ++ v)
unfolding is_space
v1_part-IsPlain v h = ((refl, refl), ((refl, refl), ((refl, refl), h)))

t_part-IsPlain : (t : Text) → IsPlain t → IsPlain (str "t=" ++ t)
unfolding is_space
t_part-IsPlain t h = ((refl, refl), ((refl, refl), h))

v1_parts : List Text → List Text
v1_parts [] = []
v1_parts (v ∷ vs) = (str "v1=" ++ v) ∷ v1_parts vs

split_on-render :
    (s : Text) (vs : List Text)
    → IsPlain s
    → All IsPlain vs
    → split_on b',' (s ++ render_signatures vs) ≡ s ∷ v1_parts vs
unfolding render_signatures v1_parts
split_on-render s [] p h = rw append-nil (split_on-plain s p)
split_on-render s (v ∷ vs) p h =
    split_on-comma s (str "v1=" ++ (v ++ render_signatures vs)) p
    ∙ ap (λ (parts : List Text). s ∷ parts)
        (split_on-render (str "v1=" ++ v) vs (v1_part-IsPlain v h.0) h.1)

strip-t : strip (str "t") ≡ str "t"
unfolding is_space
strip-t = strip-plain (str "t") ((refl, refl), tt)

strip-v1 : strip (str "v1") ≡ str "v1"
unfolding is_space
strip-v1 = strip-plain (str "v1") ((refl, refl), ((refl, refl), tt))

module _ (h : SignatureHeader) (v : Text) (plain : IsPlain v) where
  add_part-t : add_part (str "t=" ++ v) h ≡ record h { t = some v }
  unfolding add_part add_pair break_at text_eq
  add_part-t =
      ap (λ (k : Text). add_pair k (strip v) h) strip-t
      ∙ ap (λ (w : Text). add_pair (str "t") w h) (strip-plain v plain)

  add_part-v1 : add_part (str "v1=" ++ v) h ≡ record h { v1 = h.v1 ++ v ∷ [] }
  unfolding add_part add_pair break_at text_eq
  add_part-v1 =
      ap (λ (k : Text). add_pair k (strip v) h) strip-v1
      ∙ ap (λ (w : Text). add_pair (str "v1") w h) (strip-plain v plain)

add_parts-v1 :
    (vs : List Text) (h : SignatureHeader)
    → All IsPlain vs
    → add_parts (v1_parts vs) h ≡ record h { v1 = h.v1 ++ vs }
unfolding add_parts v1_parts
add_parts-v1 [] h p = ap (λ (l : List Text). record h { v1 = l }) (sym (append-nil h.v1))
add_parts-v1 (v ∷ vs) h p =
    ap (add_parts (v1_parts vs)) (add_part-v1 h v p.0)
    ∙ add_parts-v1 vs (record h { v1 = h.v1 ++ v ∷ [] }) p.1
    ∙ ap (λ (l : List Text). record h { v1 = l }) (append_assoc h.v1 (v ∷ []) vs)

-- A header written with a timestamp and signatures, none of which has a comma or a space, is read
-- back as that timestamp and those signatures, in order.
pub parse-render_header :
    (t : Text) (vs : List Text)
    → IsPlain t
    → All IsPlain vs
    → parse_signature_header (render_header t vs) ≡ record { t = some t; v1 = vs }
unfolding parse_signature_header render_header add_parts
parse-render_header t vs p ps =
    ap (λ (parts : List Text). add_parts parts (record { t = none; v1 = [] }))
      (split_on-render (str "t=" ++ t) vs (t_part-IsPlain t p) ps)
    ∙ ap (add_parts (v1_parts vs)) (add_part-t (record { t = none; v1 = [] }) t p)
    ∙ add_parts-v1 vs (record { t = some t; v1 = [] }) ps
