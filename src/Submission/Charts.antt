-- ===== src/Submission/Charts.antt =====
-- The validators of contest_validation.go for QSO parties with a chart of counties. `true` stands for
-- no error.
use w4gns_logger4men.Base.{Bool, ◌||◌, ◌++◌}
use w4gns_logger4men.Text.{Text, text_eq, codes, contains_text}
use w4gns_logger4men.Exchange.{Lookup}
use w4gns_logger4men.Submission.Areas.{at_entity}
use w4gns_logger4men.Submission.Counties.{area_or_dx}

-- A county of the chart, whatever the call, and else a state, a province or DX.
unfoldable pub charted : Text → Lookup → Text → Text → Bool
unfolding contains_text at_entity area_or_dx
charted chart lookup call token =
    contains_text chart (codes " " ++ token ++ codes " ")
    || at_entity lookup call (area_or_dx token)

-- `ilqpCountyCodes`
unfoldable pub ilqp_county_codes : Text
ilqp_county_codes =
    codes
      " ADAM ALEX BOND BOON BROW BURO CALH CARR CASS CHAM CHRS CLRK CLAY CLNT COLE COOK CRAW CUMB DEKA DEWT DOUG DUPG EDGR EDWA EFFG FAYE FORD FRNK FULT GALL GREE GRUN HAML HANC HARD HNDR HENR IROQ JACK JASP JEFF JERS JOHN KANE KANK KEND KNOX LAKE LASA LAWR LEE LIVG LOGN MACN MCPN MADN MARI MSHL MASN MSSC MCHE MCDN MCLN MNRD MRCR MNRO MNTG MORG MOUL MARN MARP MEND MERC MODO MONO MONT NAPA OGLE PEOR PERR PIAT PIKE POPE PULA PUTN RAND RICH ROCK SALI SANG SCHY SCOT SHEL SIER SISK SCLA SOLA STAR STEP TAZW UNIO VERM WABA WARR WASH WAYN WHIT WTSD WILL WMSN WBGO WOOD "

-- `validateILQPExchange`
unfoldable pub validate_ilqp_exchange : Lookup → Text → Text → Bool
unfolding charted ilqp_county_codes
validate_ilqp_exchange lookup call token = charted ilqp_county_codes lookup call token

-- `inqpCountyCodes`
unfoldable pub inqp_county_codes : Text
inqp_county_codes =
    codes
      " INADA INALL INBAR INBEN INBLA INBOO INBRO INCAR INCAS INCLR INCLY INCLI INCRA INDAV INDEA INDEC INDEK INDEL INDUB INELK INFAY INFLO INFOU INFRA INFUL INGIB INGRA INGRE INHAM INHAN INHAR INHND INHNR INHOW INHUN INJAC INJAS INJAY INJEF INJEN INJOH INKNO INKOS INLAG INLAK INLAP INLAW INMAD INMRN INMRS INMRT INMIA INMNR INMNT INMOR INNEW INNOB INOHI INORA INOWE INPAR INPER INPIK INPOR INPOS INPUL INPUT INRAN INRIP INRUS INSCO INSHE INSPE INSTA INSTE INSTJ INSUL INSWI INTPP INTPT INUNI INVAN INVER INVIG INWAB INWRN INWRK INWAS INWAY INWEL INWHT INWHL "

-- `validateINQPExchange`
unfoldable pub validate_inqp_exchange : Lookup → Text → Text → Bool
unfolding charted inqp_county_codes
validate_inqp_exchange lookup call token = charted inqp_county_codes lookup call token

-- `nmqpCountyCodes`
unfoldable pub nmqp_county_codes : Text
nmqp_county_codes =
    codes
      " BER CAT CHA CIB COL CUR DEB DON EDD GRA GUA HAR HID LEA LIN LOS LUN MCK MOR OTE QUA RIO ROO SJU SMI SAN SFE SIE SOC TAO TOR UNI VAL "

-- `validateNMQPExchange`
unfoldable pub validate_nmqp_exchange : Lookup → Text → Text → Bool
unfolding charted nmqp_county_codes
validate_nmqp_exchange lookup call token = charted nmqp_county_codes lookup call token
