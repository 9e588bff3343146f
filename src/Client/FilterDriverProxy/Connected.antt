-- ===== src/Client/FilterDriverProxy/Connected.antt =====
-- HidHideCLI/src/FilterDriverProxy.cpp joined to HidHide/src/Logic.c: what the object of a client
-- and the driver of this repository have in common. The parameters are the framework of the driver
-- with the laws of its registry, the channel between client and driver, and the comparison of paths,
-- which is an order.
use hid_hide.Prelude.{◌≡◌, subst, Ordering, Bool, true, false, WideString, is_empty}
use hid_hide.Client.MultiString.RoundTrip.{IsText}
use hid_hide.Client.Sets.Order.{IsOrder}
use hid_hide.Driver.Framework.{Framework, IsRegistry}
use hid_hide.Driver.Control.{State}
use hid_hide.Client.DriverAccess.{Outcome, done, thrown}
use hid_hide.Client.FilterDriverProxy.{Proxy, Run, apply_configuration_changes, create_proxy}
use hid_hide.Client.FilterDriverProxy.Faithful.{Gives, IsFaithful}
use hid_hide.Client.FilterDriverProxy.Applied.{
  IsWellFormed, HasTexts, Agrees, apply_configuration_changes-Agrees,
}
use hid_hide.Client.FilterDriverProxy.Changes.{Change, IsProper, perform}
use hid_hide.Client.FilterDriverProxy.WriteThrough.{perform-Agrees}
use hid_hide.Client.FilterDriverProxy.Created.{IsNew, create_proxy-IsNew}
use hid_hide.Client.FilterDriverProxy.Connection.{Channel, KeepsLists, connected, settings_of}
use hid_hide.Client.FilterDriverProxy.Connection.Reads.{
  active-Reads, inverse-Reads, sizes_blacklist, blacklist-Reads, sizes_whitelist, whitelist-Reads,
}
use hid_hide.Client.FilterDriverProxy.Connection.Writes.{
  active-Writes, inverse-Writes, blacklist-Writes, whitelist-Writes,
}
use hid_hide.Client.FilterDriverProxy.Connection.InForce.{IsInForce}
use hid_hide.Client.FilterDriverProxy.Connection.Kept.{connected-IsUpheld}
use hid_hide.Client.FilterDriverProxy.Upheld.{apply_configuration_changes-After, perform-After}

both :
    {A : Type 0} (P Q : A → Type 0) (o : Outcome A)
    → Gives P o
    → Gives Q o
    → Gives (λ a. P a × Q a) o
both P Q (done a) h g = (h, g)
both P Q thrown h g = tt

module _ (f : Framework) (r : IsRegistry f) (k : KeepsLists f r) (ch : Channel) where
  -- The driver keeps what a client relies on.
  pub connected-IsFaithful : IsFaithful (connected f ch) (settings_of f r)
  connected-IsFaithful = record {
    reads_active = active-Reads f r k ch;
    reads_inverse = inverse-Reads f r k ch;
    sizes_blacklist = sizes_blacklist f r k ch;
    reads_blacklist = blacklist-Reads f r k ch;
    sizes_whitelist = sizes_whitelist f r k ch;
    reads_whitelist = whitelist-Reads f r k ch;
    writes_active = active-Writes f r k ch;
    writes_inverse = inverse-Writes f r k ch;
    writes_blacklist = blacklist-Writes f r k ch;
    writes_whitelist = whitelist-Writes f r k ch;
  }

  module _ (cmp : WideString → WideString → Ordering) (o : IsOrder cmp) where
    -- An object of the client and the driver of this repository. Take an object whose two lists are
    -- ascending sets, and let every text in them, and in the two lists of the driver's registry, be
    -- not empty and without a NUL; let the driver judge by the lists of its registry. When
    -- ApplyConfigurationChanges ends without a throw, the driver has the active and the inverse
    -- state of the object, its registry, from which it answers clients, has the two lists of the
    -- object, each as the same set, and the driver judges by these lists.
    pub apply_configuration_changes-connected :
        (p : Proxy) (s s' : State f)
        → IsWellFormed cmp p
        → HasTexts (settings_of f r s)
        → IsInForce f r k s
        → apply_configuration_changes (connected f ch) cmp p s ≡ (done tt, s')
        → Agrees cmp p (settings_of f r s') × IsInForce f r k s'
    apply_configuration_changes-connected p s s' ok t h e = (
      apply_configuration_changes-Agrees (connected f ch) (settings_of f r) cmp o
          connected-IsFaithful p s s' ok t e,
      subst (λ (x : Outcome Unit × State f). Gives (λ u. IsInForce f r k x.1) x.0) e
          (apply_configuration_changes-After (connected f ch) (IsInForce f r k)
            (connected-IsUpheld f r k ch) cmp p s ok h),
    )

    -- What an object with write-through and the driver have in common after a method that did not
    -- throw.
    abbrev pub IsShared : Run (connected f ch) → Type 0
    IsShared run =
        Gives (λ u. Agrees cmp run.proxy (settings_of f r run.world) × IsInForce f r k run.world)
          run.outcome

    -- An object with write-through and the driver of this repository. Let the two lists of the
    -- object be ascending sets, let what the method is given as a set be ascending, and let every
    -- text in them and every text that the method is given be not empty and without a NUL. If the
    -- object agrees with the driver on the active and the inverse state and with its registry on
    -- the two lists as sets, and the driver judges by the lists of its registry, all of this holds
    -- after each method that does not throw.
    pub perform-connected :
        (c : Change) (p : Proxy) (s : State f)
        → p.write_through ≡ true
        → IsProper cmp c
        → IsWellFormed cmp p
        → Agrees cmp p (settings_of f r s)
        → IsInForce f r k s
        → IsShared (perform (connected f ch) cmp c p s)
    perform-connected c p s t proper ok a h =
        let run = perform (connected f ch) cmp c p s in
        both (λ u. Agrees cmp run.proxy (settings_of f r run.world))
          (λ u. IsInForce f r k run.world) run.outcome
          (perform-Agrees (connected f ch) (settings_of f r) cmp o connected-IsFaithful c p s t
            proper ok a)
          (perform-After (connected f ch) (IsInForce f r k) (connected-IsUpheld f r k ch) cmp o c p
            s t proper ok h)

    -- The constructor on the driver of this repository, when the control device could be opened, with
    -- a full image name that is not empty and has no NUL. Let every text in the two lists of the driver's registry be not empty and
    -- without a NUL. Unless the constructor throws, its object has ascending sets of such texts, it
    -- agrees with the driver on the active and the inverse state and with its registry on the two
    -- lists as sets, and it has the application on its whitelist exactly if the whitelist is not
    -- inverse.
    pub create_proxy-connected :
        (write_through : Bool) (name : WideString) (s : State f)
        → is_empty name ≡ false
        → IsText name
        → HasTexts (settings_of f r s)
        → let run = create_proxy (connected f ch) cmp write_through true (done name) s in
          Gives (λ p. IsNew cmp name p (settings_of f r run.1)) run.0
    create_proxy-connected write_through name s n t h =
        create_proxy-IsNew (connected f ch) (settings_of f r) cmp o connected-IsFaithful
          write_through name s n t h
