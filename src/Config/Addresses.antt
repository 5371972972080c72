-- ===== src/Config/Addresses.antt =====
-- SetBootstrapAddress on the text of a list of bootstrap addresses.
use lachain_communication_hu.Base.{
  ==_self, ne→==, ℕ, ◌≡◌, refl, ap, ◌∙◌, ◌≢◌, some, List, [], ◌∷◌, ◌++◌, map, append-nil,
  append_assoc, arith, length, All, length-append, Text, nat_eq, text_keys,
}
use lachain_communication_hu.Config.{
  Config, split, comma, at_sign, colon, ip4, tcp, add_address, add_addresses, set_bootstrap_address,
}

-- One bootstrap address, and its text.
pub record Entry : Type 0 where
  pub id : Text
  pub ip : Text
  pub port : Text

abbrev pub entry_text : Entry → Text
entry_text e = e.id ++ at_sign ∷ (e.ip ++ colon ∷ e.port)

abbrev pub joined : List Entry → Text
joined [] = []
joined (e ∷ []) = entry_text e
joined (e ∷ rest) = entry_text e ++ comma ∷ joined rest

abbrev pub Free : ℕ → Text → Type 0
Free sep t = All (λ c. c ≢ sep) t

-- No part of the entry has a separator in it.
pub record IsEntry (e : Entry) : Type 0 where
  pub id_at : Free at_sign e.id
  pub ip_colon : Free colon e.ip
  pub host_at : Free at_sign (e.ip ++ colon ∷ e.port)
  pub port_colon : Free colon e.port
  pub no_comma : Free comma (entry_text e)

pub split-Free : (sep : ℕ) (t : Text) → Free sep t → split sep t ≡ t ∷ []
unfolding split
split-Free sep [] h = refl
split-Free sep (c ∷ cs) (h, hs) = rw (ne→== c sep h, split-Free sep cs hs)

pub split-append :
    (sep : ℕ) (t rest : Text) → Free sep t → split sep (t ++ sep ∷ rest) ≡ t ∷ split sep rest
unfolding split
split-append sep [] rest h = rw (==_self sep)
split-append sep (c ∷ cs) rest (h, hs) = rw (ne→== c sep h, split-append sep cs rest hs)

split-joined :
    (e : Entry) (es : List Entry)
    → All IsEntry (e ∷ es)
    → split comma (joined (e ∷ es)) ≡ map entry_text (e ∷ es)
split-joined e [] (h, hs) = split-Free comma (entry_text e) h.no_comma
split-joined e (x ∷ es) (h, hs) =
    split-append comma (entry_text e) (joined (x ∷ es)) h.no_comma
    ∙ ap (◌∷◌ (entry_text e)) (split-joined x es hs)

abbrev pub address_of : Entry → Text
address_of e = ip4 ++ e.ip ++ tcp ++ e.port

-- The configuration with more entries.
abbrev pub extended : Config → List Entry → Config
extended conf es = record {
  relay_addrs = conf.relay_addrs ++ map address_of es;
  relay_ids = conf.relay_ids ++ map (λ (e : Entry). e.id) es;
}

add_address-entry :
    (e : Entry) (conf : Config)
    → IsEntry e
    → add_address (entry_text e) conf ≡ some (extended conf (e ∷ []))
unfolding add_address
add_address-entry e conf h = rw (
  add_address,
  split-append at_sign e.id (e.ip ++ colon ∷ e.port) h.id_at,
  split-Free at_sign (e.ip ++ colon ∷ e.port) h.host_at,
  split-append colon e.ip e.port h.ip_colon,
  split-Free colon e.port h.port_colon,
)

add_addresses-entries :
    (es : List Entry) (conf : Config)
    → All IsEntry es
    → add_addresses (map entry_text es) conf ≡ some (extended conf es)
unfolding add_addresses
add_addresses-entries [] conf h = rw (append-nil conf.relay_addrs, append-nil conf.relay_ids)
add_addresses-entries (e ∷ es) conf (h, hs) =
    rw
      (
        add_addresses,
        add_address-entry e conf h,
        add_addresses-entries es (extended conf (e ∷ [])) hs,
      )
      (rw
        (
          append_assoc conf.relay_addrs (address_of e ∷ []) (map address_of es),
          append_assoc conf.relay_ids (e.id ∷ []) (map (λ (x : Entry). x.id) es),
        )
        refl)

joined-length : (e : Entry) (es : List Entry) → length (joined (e ∷ es)) ≢ 0
joined-length e [] z = omega (arith, length-append e.id (at_sign ∷ (e.ip ++ colon ∷ e.port)))
joined-length e (x ∷ es) z = omega (arith, length-append (entry_text e) (comma ∷ joined (x ∷ es)))

-- The text of a list of entries, none of which has a separator in a part of it, is parsed without a
-- panic: to each entry's id its address `/ip4/<ip>/tcp/<port>` is entered, in their order, behind
-- what the configuration had.
pub set_bootstrap_address-joined :
    (es : List Entry) (conf : Config)
    → All IsEntry es
    → set_bootstrap_address (joined es) conf ≡ some (extended conf es)
unfolding set_bootstrap_address
set_bootstrap_address-joined [] conf h = rw (append-nil conf.relay_addrs, append-nil conf.relay_ids)
set_bootstrap_address-joined (e ∷ es) conf h =
    rw (ne→== (length (joined (e ∷ es))) 0 (joined-length e es), split-joined e es h)
      (add_addresses-entries (e ∷ es) conf h)
