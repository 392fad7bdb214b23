-- ===== src/Scenarios/Resolving.antt =====
-- A mailbox for a message whose sender is at localhost.
use msgate.Prelude.{◌≡◌, refl, none, some, codes}
use msgate.Ews.Mailbox.{AddressParser, resolve_primary_smtp}
use msgate.Ews.Mailbox.Choice.{Gives, Names, Before, resolve_primary_smtp_iff}
use msgate.Scenarios.Samples.{endpoint}

-- Stands in for a parser that finds the whole text.
abbrev whole : AddressParser
whole t = t

resolved :
    resolve_primary_smtp whole
      (codes "ann@example.com")
      (some (codes "root@localhost"))
      endpoint
      none
    ≡ some (codes "ann@example.com")
unfolding resolve_primary_smtp
resolved = refl

resolve_primary_smtp_iff_example :
    Before
      (Gives whole none)
      (Before (Gives whole none) (
        Before (Gives whole (some (codes "root@localhost"))) (
          Before
            (Names whole (some (codes "ann@example.com")))
            (Names whole (some (codes "svc"))))))
      (codes "ann@example.com")
resolve_primary_smtp_iff_example =
    (resolve_primary_smtp_iff whole (codes "ann@example.com") (some (codes "root@localhost"))
        endpoint none (codes "ann@example.com")).0
      resolved
