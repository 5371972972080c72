-- ===== src/PeerService/Startup/External.antt =====
-- The external address of a node, from the flag of the configuration to GetExternalMultiAddress.
use lachain_communication_hu.Base.{
  ap, ne→==, ℕ, suc, ◌≡◌, refl, sym, ◌∙◌, ◌≢◌, ◌↔◌, ◌⊎◌, inl, inr, Bool, true, false, Option, none,
  some, List, [], ◌∷◌, arith, length, Text, nat_eq, text_keys,
}
use lachain_communication_hu.Utils.Platform.{Platform}
use lachain_communication_hu.Config.{get_p2p_external_ip}
use lachain_communication_hu.PeerService.Startup.{
  Host, address_with, external_of, get_external_multiaddress,
}

or_first-ne :
    (o : Option (List ℕ)) (a : List ℕ) → (elim o [ some b ↦ some b | none ↦ some a ]) ≢ none
or_first-ne (some b) a e = cc
or_first-ne none a e = cc

some_same : {o p : Option (List ℕ)} → ◌≡◌ {A = Option (Option (List ℕ))} (some o) (some p) → o ≡ p
some_same e = cc

module _ (lib : Platform) where
  external_of-none :
      (ext_ip : Text) (addrs : List (List ℕ)) → (external_of lib ext_ip addrs ≡ none) ↔ (addrs ≡ [])
  unfolding address_with
  external_of-none ext_ip [] = ((λ e. refl), λ e. refl)
  external_of-none ext_ip (a ∷ as') =
      ((λ e. absurd (or_first-ne (address_with lib ext_ip (a ∷ as')) a e)), λ e. cc)

  -- What GetExternalMultiAddress finds, where a lookup that does not fail finds a text with characters:
  -- it panics exactly if the IP is looked up and the lookup fails, and it returns an error exactly if
  -- the lookup is disabled, or finds an IP and the host listens nowhere.
  pub get_external_multiaddress-none :
      (ip_lookup : Bool) (found : Option Text) (host : Host)
      → found ≢ some []
      → ((get_external_multiaddress lib ip_lookup found host ≡ none)
          ↔ ((ip_lookup ≡ true) × (found ≡ none)))
        × ((get_external_multiaddress lib ip_lookup found host ≡ some none)
            ↔ ((ip_lookup ≡ false) ⊎ ((ip_lookup ≡ true) × (found ≢ none) × (host.addrs ≡ []))))
  unfolding get_external_multiaddress get_p2p_external_ip
  get_external_multiaddress-none false found host ip =
      (((λ e. cc), λ h. cc), ((λ e. inl refl), λ h. refl))
  get_external_multiaddress-none true none host ip = (
    ((λ e. (refl, refl)), λ h. refl),
    ((λ e. cc), λ h. elim h [ inl x ↦ cc | inr x ↦ absurd (x.1 refl) ]),
  )
  get_external_multiaddress-none true (some []) host ip = absurd (ip refl)
  get_external_multiaddress-none true (some (c ∷ cs)) host ip =
      let (to, from) = external_of-none (c ∷ cs) host.addrs in
      let asked : get_external_multiaddress lib true (some (c ∷ cs)) host
          ≡ some (external_of lib (c ∷ cs) host.addrs) =
        rw (ne→== (suc (length cs)) 0 (omega arith)) refl in
      (
        ((λ e. cc), λ h. cc),
        (
          (λ e. inr (refl, (λ x. cc), to (some_same (sym asked ∙ e)))),
          λ h. asked ∙ ap some (from (elim h [ inl x ↦ cc | inr x ↦ x.2 ])),
        ),
      )
