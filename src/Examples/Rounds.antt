-- ===== src/Examples/Rounds.antt =====
-- The rounds of examples/consumer.cpp and examples/publisher.cpp: what they call, as words of a language,
-- and that they do not end the program.
use rabbitmq_cxx.Base.{ℕ, zero, suc, Bool, true, false, Bytes, [], ◌∷◌, Option, none, some}
use rabbitmq_cxx.Amqp.{print, print_error}
use rabbitmq_cxx.Exceptions.{Exception, foreign}
use rabbitmq_cxx.Effect.{Effect}
use rabbitmq_cxx.Effect.Writes.{
  Language, Writes, Writes-pure, Writes-throw, Writes-bind, Writes-notify,
}
use rabbitmq_cxx.Effect.Keeps.{
  Account, Keeps, Keeps-pure, Keeps-throw, Keeps-bind, Keeps-notify, Keeps-try_catch,
}
use rabbitmq_cxx.Connection.Consume.Keeps.{IsKept}
use rabbitmq_cxx.Effect.Survives.{Survives, survives_rules, Survives-bind, Survives-try_catch}
use rabbitmq_cxx.Examples.{report, give_up, attempt, again, forever}

module _ (K : Language) (line : Bytes) (missed : K.IsWord (print line ∷ []))
    (failed : (l : Bytes) → K.IsWord (print_error l ∷ [])) where
  pub report-Writes : (r : Option Bool) → Writes K (report line r)
  unfolding report
  report-Writes none = Writes-pure _
  report-Writes (some true) = Writes-pure _
  report-Writes (some false) =
      Writes-bind _ _ (Writes-notify (print line) missed) λ u. Writes-pure _

  pub give_up-Writes : (e : Exception) → Writes K (give_up e)
  unfolding give_up
  give_up-Writes (foreign n) = Writes-throw _
  give_up-Writes _ = Writes-bind _ _ (Writes-notify (print_error _) (failed _)) λ u. Writes-pure _

-- The same for an account.
module _ (P : Account) (line : Bytes) (missed : IsKept P (print line))
    (failed : (l : Bytes) → IsKept P (print_error l)) where
  report-Keeps : (r : Option Bool) → Keeps P (report line r)
  unfolding report
  report-Keeps none = Keeps-pure _
  report-Keeps (some true) = Keeps-pure _
  report-Keeps (some false) = Keeps-bind _ _ (Keeps-notify (print line) missed) λ u. Keeps-pure _

  give_up-Keeps : (e : Exception) → Keeps P (give_up e)
  unfolding give_up
  give_up-Keeps (foreign n) = Keeps-throw _
  give_up-Keeps _ = Keeps-bind _ _ (Keeps-notify (print_error _) (failed _)) λ u. Keeps-pure _

  again-Keeps :
      (r : Option Bool) (rest : Effect (Option (Unit {0}))) → Keeps P rest → Keeps P (again r rest)
  unfolding again
  again-Keeps none rest w = Keeps-pure _
  again-Keeps (some true) rest w = w
  again-Keeps (some false) rest w = Keeps-pure _

  pub forever-Keeps :
      (n : ℕ) (consuming : Effect (Option Bool))
      → Keeps P consuming
      → Keeps P (forever n (attempt line consuming))
  unfolding forever attempt
  forever-Keeps zero consuming w = Keeps-pure _
  forever-Keeps (suc n) consuming w =
      Keeps-bind _ _ (Keeps-try_catch _ _ (Keeps-bind _ _ w report-Keeps) give_up-Keeps)
        λ r. again-Keeps r _ (forever-Keeps n consuming w)

report-Survives : (line : Bytes) (r : Option Bool) → Survives (report line r)
unfolding report
report-Survives line none = search survives_rules
report-Survives line (some true) = search survives_rules
report-Survives line (some false) = search survives_rules

give_up-Survives : (e : Exception) → Survives (give_up e)
unfolding give_up
give_up-Survives (foreign n) = search survives_rules
give_up-Survives _ = search survives_rules

pub attempt-Survives :
    (line : Bytes) (consuming : Effect (Option Bool))
    → Survives consuming
    → Survives (attempt line consuming)
unfolding attempt
attempt-Survives line consuming s =
    Survives-try_catch _ _ (Survives-bind _ _ s (report-Survives line)) give_up-Survives

again-Survives :
    (r : Option Bool) (rest : Effect (Option (Unit {0}))) → Survives rest → Survives (again r rest)
unfolding again
again-Survives none rest s = search survives_rules
again-Survives (some true) rest s = s
again-Survives (some false) rest s = search survives_rules

pub forever-Survives :
    (n : ℕ) (round : Effect (Option Bool)) → Survives round → Survives (forever n round)
unfolding forever
forever-Survives zero round s = search survives_rules
forever-Survives (suc n) round s =
    Survives-bind _ _ s λ r. again-Survives r _ (forever-Survives n round s)
