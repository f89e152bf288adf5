-- ===== src/Webrtc/HttpSignaler/Urls.antt =====
-- The URL of a peer, src/transport/webrtc/webrtc_http_signaler.cpp: one for each session and
-- participant.

use magpie_cpp.Prelude.{
  ℕ, ◌<◌, false, not, [], ◌∷◌, ◌++◌, eqb, All, ◌≡◌, refl, sym, ap, ◌∙◌, arith, if◌then◌else◌,
}
use magpie_cpp.Prelude.Bytes.{Bytes, codes}
use magpie_cpp.Webrtc.HttpSignaler.Ids.{
  IsByte, every_letter, every_letter-letter, decode_id, decode_id-encode_id, encode_id, letter,
}

-- while (!baseUrl.empty() && baseUrl.back() == '/') baseUrl.pop_back();
unfoldable pub strip_slashes : Bytes → Bytes
strip_slashes [] = []
strip_slashes (c ∷ s) =
    let rest = strip_slashes s in
    elim rest [ [] ↦ if eqb c b'/' then [] else c ∷ [] | d ∷ t ↦ c ∷ d ∷ t ]

-- peerUrl, for a base URL that has passed the tests of the constructor.
unfoldable pub peer_url : Bytes → Bytes → Bytes → Bytes
unfolding strip_slashes encode_id
peer_url base session peer =
    strip_slashes base
    ++ (codes "/sessions/" ++ (encode_id session ++ (codes "/peers/" ++ encode_id peer)))

abbrev NoSlash : Bytes → Type 0
NoSlash s = All (λ c. eqb c b'/' ≡ false) s

letter-not_slash : (i : ℕ) → i < 64 → eqb (letter i) b'/' ≡ false
unfolding every_letter
letter-not_slash i short =
    let other = every_letter-letter (λ k c. not (eqb c b'/')) i refl short in ground (arith, other)

encode_id-NoSlash : (s : Bytes) → All IsByte s → NoSlash (encode_id s)
unfolding encode_id
encode_id-NoSlash [] h = tt
encode_id-NoSlash (a ∷ []) h =
    (letter-not_slash _ (omega arith), (letter-not_slash _ (omega arith), tt))
encode_id-NoSlash (a ∷ b ∷ []) h = (
  letter-not_slash _ (omega arith),
  (letter-not_slash _ (omega arith), (letter-not_slash _ (omega arith), tt)),
)
encode_id-NoSlash (a ∷ b ∷ c ∷ rest) h = (
  letter-not_slash _ (omega arith),
  (
    letter-not_slash _ (omega arith),
    (
      letter-not_slash _ (omega arith),
      (letter-not_slash _ (omega arith), encode_id-NoSlash rest h.1.1.1),
    ),
  ),
)

prefix_cancel : (p s t : Bytes) → p ++ s ≡ p ++ t → s ≡ t
prefix_cancel [] s t e = e
prefix_cancel (c ∷ p) s t e = prefix_cancel p s t (cc)

-- Where the first slash of two texts stands.
split_slash :
    (s t u v : Bytes)
    → NoSlash s
    → NoSlash t
    → s ++ (b'/' ∷ u) ≡ t ++ (b'/' ∷ v)
    → (s ≡ t) × (u ≡ v)
split_slash [] [] u v ns nt e = (refl, cc)
split_slash [] (d ∷ t) u v ns nt e = let same : b'/' ≡ d = cc in absurd (ground (arith, nt.0, same))
split_slash (c ∷ s) [] u v ns nt e = let same : c ≡ b'/' = cc in absurd (ground (arith, ns.0, same))
split_slash (c ∷ s) (d ∷ t) u v ns nt e =
    let rest = split_slash s t u v ns.1 nt.1 (cc) in
    let same : c ≡ d = cc in (cc (rest.0, same), rest.1)

encode_id-injective :
    (s t : Bytes) → All IsByte s → All IsByte t → encode_id s ≡ encode_id t → s ≡ t
encode_id-injective s t hs ht e =
    sym (decode_id-encode_id s hs) ∙ (ap decode_id e ∙ decode_id-encode_id t ht)

-- At one base URL, two participants have the same URL only if they are the same participant of the
-- same session, whatever bytes their names have.
pub peer_url-injective :
    (base session peer session' peer' : Bytes)
    → All IsByte session
    → All IsByte peer
    → All IsByte session'
    → All IsByte peer'
    → peer_url base session peer ≡ peer_url base session' peer'
    → (session ≡ session') × (peer ≡ peer')
unfolding peer_url
peer_url-injective base session peer session' peer' hs hp hs' hp' e =
    let tails = prefix_cancel (codes "/sessions/") _ _ (prefix_cancel (strip_slashes base) _ _ e) in
    let parts =
      split_slash (encode_id session) (encode_id session') _ _ (encode_id-NoSlash session hs)
        (encode_id-NoSlash session' hs') tails in
    (
      encode_id-injective session session' hs hs' parts.0,
      encode_id-injective peer peer' hp hp' (prefix_cancel (codes "peers/") _ _ parts.1),
    )
