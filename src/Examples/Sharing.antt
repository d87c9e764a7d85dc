-- ===== src/Examples/Sharing.antt =====
-- Two requests parsed by two threads: Server/protocol.c.
use progetto.Prelude.{true, false, [], ◌∷◌, ◌++◌, ◌≡◌, refl, codes, Bytes, replicate}
use progetto.CLib.Tokens.{strtok}
use progetto.Examples.Checks.{lacks_lem, lacks}
use progetto.Protocol.Dialog.{collect_parts}
use progetto.Protocol.Sharing.{bar, Threads, reads, parsed, interleave}
use progetto.Protocol.Sharing.Mixing.{request, mixing, interleave-separate, interleave-mixed}

abbrev mine : Bytes
mine = request (codes "kind") (codes "english") (codes "hi")

abbrev other : Bytes
other = request (codes "shy") (codes "french") (codes "bonjour")

abbrev threads : Threads
threads = record { position = []; first = reads mine; second = reads other }

interleave-separate_example :
    ((interleave (replicate 5 true ++ replicate 5 false) threads).first
      ≡ parsed (collect_parts 3 (strtok bar mine)))
    × ((interleave (replicate 5 true ++ replicate 5 false) threads).second
        ≡ parsed (collect_parts 3 (strtok bar other)))
interleave-separate_example = interleave-separate [] mine other

interleave-mixed_example :
    ((interleave mixing threads).first
      ≡ parsed (codes "kind" ∷ codes "french" ∷ codes "bonjour" ∷ []))
    × ((interleave mixing threads).second ≡ parsed (codes "shy" ∷ []))
unfolding lacks
interleave-mixed_example =
    interleave-mixed [] (codes "kind") (codes "english") (codes "hi") (codes "shy") (codes "french")
      (codes "bonjour") (lacks_lem bar (codes "kind") refl, (λ e. cc))
      (lacks_lem bar (codes "english") refl, (λ e. cc)) (lacks_lem bar (codes "hi") refl, (λ e. cc))
      (lacks_lem bar (codes "shy") refl, (λ e. cc)) (lacks_lem bar (codes "french") refl, (λ e. cc))
      (lacks_lem bar (codes "bonjour") refl, (λ e. cc))
