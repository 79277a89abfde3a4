-- ===== src/Engine/Uri/RoundTrip.antt =====
-- `decodeURI` undoes `encodeURI`, which succeeds on well-formed strings.
use cno_cli.Base.{
  ℕ, zero, suc, ◌≡◌, ◌≤◌, ◌<◌, refl, sym, ap, ◌∙◌, arith, Bool, true, false, Option, some,
}
use cno_cli.Base.{List, [], ◌∷◌, ◌++◌, length, inl, inr, All}
use cno_cli.Engine.Result.{Result, ok, throws, ◌>>=◌}
use cno_cli.Engine.Escape.{upper_digit}
use cno_cli.Engine.Uri.{
  Surrogates, written, encode_loop, js_global_encode_uri, decode_loop, js_global_decode_uri,
}
use cno_cli.Engine.Uri.Points.{IsUtf16}
use cno_cli.Engine.Uri.Pairing.{paired, Encoded}
use cno_cli.Engine.Uri.Pairs.{encode_loop-cases}

abbrev pub succeeds : Result (List ℕ) → Bool
succeeds (throws e) = false
succeeds (ok out) = true

succeeds-written : (out : List ℕ) (r : Result (List ℕ)) → succeeds (written out r) ≡ succeeds r
succeeds-written out (throws e) = refl
succeeds-written out (ok rest) = refl

All-end : (P : ℕ → Type 0) (xs ys : List ℕ) → All P (xs ++ ys) → All P ys
All-end P [] ys h = h
All-end P (x ∷ xs) ys h = All-end P xs ys h.1

module _ (surrogates : Surrogates) (utf16 : IsUtf16 surrogates) (from_hex : ℕ → Option ℕ)
    (reads : (i : ℕ) → i < 16 → from_hex (upper_digit i) ≡ some i) (is_component : Bool) where
  -- The two loops, one after the other, against the string and whether it is well-formed.
  record Agrees (s : List ℕ) : Type 0 where
    total : succeeds (encode_loop surrogates is_component 0 s) ≡ paired false s
    back :
        (encode_loop surrogates is_component 0 s >>= decode_loop surrogates from_hex is_component 0)
        ≡ (encode_loop surrogates is_component 0 s >>= (λ _. ok s))

  written_back :
      (first rest out : List ℕ) (r : Result (List ℕ))
      → ((more : List ℕ)
          → decode_loop surrogates from_hex is_component 0 (out ++ more)
            ≡ written first (decode_loop surrogates from_hex is_component 0 more))
      → (r >>= decode_loop surrogates from_hex is_component 0) ≡ (r >>= (λ _. ok rest))
      → (written out r >>= decode_loop surrogates from_hex is_component 0)
        ≡ (written out r >>= (λ _. ok (first ++ rest)))
  written_back first rest out (throws e) decoded h = refl
  written_back first rest out (ok more) decoded h = decoded more ∙ ap (written first) h

  Agrees-on :
      (units : List ℕ)
      → (c : Encoded surrogates utf16 from_hex reads is_component units) → Agrees c.rest
      → Agrees units
  Agrees-on units c h = record {
    total =
        ap succeeds c.encoded
        ∙ succeeds-written c.out (encode_loop surrogates is_component 0 c.rest)
        ∙ h.total
        ∙ sym c.same_pairs;
    back =
        rw (c.encoded, ← c.whole)
          (written_back c.first c.rest c.out (encode_loop surrogates is_component 0 c.rest)
            c.decoded h.back);
  }

  Agrees-within : (bound : ℕ) (s : List ℕ) → length s ≤ bound → All (λ c. c < 65536) s → Agrees s
  Agrees-within bound [] le h =
      unfold encode_loop decode_loop in record { total = refl; back = refl }
  Agrees-within zero (c ∷ rest) le h = absurd (omega arith)
  Agrees-within (suc bound) (c ∷ rest) le h =
      elim (encode_loop-cases surrogates utf16 from_hex reads is_component c rest h.0) [
        | inl e ↦ Agrees-on (c ∷ rest) e (
            Agrees-within bound e.rest (omega (arith, e.shorter))
              (All-end (λ c. c < 65536) e.first e.rest (rw e.whole h)))
        | inr ((error, refused), unpaired) ↦ record {
          total = rw (refused, unpaired) refl;
          back = rw refused refl;
        }
      ]

  -- With functions on surrogates and on digits as they are documented: `encodeURI` and
  -- `encodeURIComponent` of a string of 16-bit units succeed exactly where every surrogate of the
  -- string is in a pair.
  pub js_global_encode_uri-paired :
      (s : List ℕ)
      → All (λ c. c < 65536) s
      → succeeds (js_global_encode_uri surrogates is_component s) ≡ paired false s
  js_global_encode_uri-paired s h =
      unfold js_global_encode_uri in (Agrees-within (length s) s (omega arith) h).total

  succeeded : (r : Result (List ℕ)) (s : List ℕ) → succeeds r ≡ true → (r >>= (λ _. ok s)) ≡ ok s
  succeeded (throws e) s h = absurd (cc)
  succeeded (ok out) s h = refl

  -- With functions on surrogates and on digits as they are documented: a string of 16-bit units in
  -- which every surrogate is in a pair is what `decodeURI` returns for what `encodeURI` returns for
  -- it, and so with the two functions for components.
  pub decode_uri-encode_uri :
      (s : List ℕ)
      → All (λ c. c < 65536) s
      → paired false s ≡ true
      → (js_global_encode_uri surrogates is_component s
          >>= js_global_decode_uri surrogates from_hex is_component)
        ≡ ok s
  unfolding js_global_encode_uri js_global_decode_uri
  decode_uri-encode_uri s h p =
      let both = Agrees-within (length s) s (omega arith) h in
      both.back ∙ succeeded (encode_loop surrogates is_component 0 s) s (both.total ∙ p)
