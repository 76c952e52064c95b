-- ===== src/Exchange/Tables.antt =====
-- The multiplier tables of the contest rules: exchange_area.go, tn_county.go, canton.go,
-- rdxc_oblast.go, arrl_section.go, naqp_area.go, sac_area.go and wae_country.go.
use Prim.Native.String.{String}
use w4gns_logger4men.Base.{List, [], ◌∷◌, ◌++◌, map}
use w4gns_logger4men.Text.{Text, codes, fields}

-- The words of a literal, one code each.
unfoldable table : String → List Text
unfolding fields
table s = fields (codes s)

-- `exchangeAreaCodes`
unfoldable pub exchange_area_codes : List Text
unfolding table
exchange_area_codes =
    table "AL AZ AR CA CO CT DE FL GA ID IL IN IA KS KY LA ME MD MA MI MN MS MO MT NE NV NH"
    ++ (table "NJ NM NY NC ND OH OK OR PA RI SC SD TN TX UT VT VA WA WV WI WY DC AB BC MB NB NL"
        ++ (table "LB NS NT NU ON PE QC SK YT"))

-- `tnCountyCodes`
unfoldable pub tn_county_codes : List Text
unfolding table
tn_county_codes =
    table "ANDE BEDF BENT BLED BLOU BRAD CAMP CANN CARR CART CHEA CHES CLAI CLAY COCK COFF"
    ++ (table "CROC CUMB DAVI DECA DEKA DICK DYER FAYE FENT FRAN GIBS GILE GRAI GREE GRUN HAMB"
        ++ (table "HAMI HANC HARD HARN HAWK HAYW HEND HENR HICK HOUS HUMP JACK JEFF JOHN KNOX LAKE"
            ++ (table
                  "LAUD LAWR LEWI LINC LOUD MACO MADI MARI MARS MAUR MCMI MCNA MEIG MONR MONT MOOR"
                ++ (table
                      "MORG OBIO OVER PERR PICK POLK PUTN RHEA ROAN ROBE RUTH SCOT SEQU SEVI SHEL SMIT"
                    ++ (table
                        "STEW SULL SUMN TIPT TROU UNIC UNIO VANB WARR WASH WAYN WEAK WHIT WILL WILS")))))

-- `cantonCodes`
unfoldable pub canton_codes : List Text
unfolding table
canton_codes = table "AG AI AR BE BL BS FR GE GL GR JU LU NE NW OW SG SH SO SZ TG TI UR VD VS ZG ZH"

-- `rdxcOblastCodes`
unfoldable pub oblast_codes : List Text
unfolding table
oblast_codes =
    table "SP LO KO KL AR NO VO NV PS MU KA MA MO OR LP TV VR SM YR KS TL TB RA NN IV VL KU"
    ++ (table "KG BR BO VG SA PE SR UL KI TA MR MD UD CU KR KC ST KM SO RK RO CN IN SE AO DA KB"
        ++ (table "AD DO HE LU ZP CB SV PM TO HM YN TN OM NS KN OB KE BA AL GA KK HK EA SL MG AM CK"
            ++ (table "PK BU YA IR ZK HA TU KT FJ AN")))

-- `arrlSectionCodes`
unfoldable pub arrl_section_codes : List Text
unfolding table
arrl_section_codes =
    table "CT RI EMA VT ME WMA NH ENY NNY NLI SNJ NNJ WNY DE MDC EPA WPA AL SFL GA TN KY VA"
    ++ (table "NC WCF NFL PR SC VI AR NTX LA OK MS STX NM WTX EB SDG LAX SF ORG SJV SB SV SCV PAC"
        ++ (table "AK NV AZ OR EWA UT ID WWA MT WY MI WV OH IL WI IN CO MO IA NE KS ND MN SD AB ONE"
            ++ (table "BC ONN GH ONS MB PE NB QC NL SK NS TER")))

-- `naqpAreaCodes`
unfoldable pub naqp_area_codes : List Text
unfolding table
naqp_area_codes =
    table "AL AK AZ AR CA CO CT DE FL GA HI ID IL IN IA KS KY LA ME MD MA MI MN MS MO MT NE"
    ++ (table "NV NH NJ NM NY NC ND OH OK OR PA RI SC SD TN TX UT VT VA WA WV WI WY DC AB BC MB"
        ++ (table "NB NL NS NT NU ON PE QC SK YT"))

-- `waeCountries`
unfoldable pub wae_countries : List Text
wae_countries = map codes (
    "Sov Mil Order of Malta" ∷ "Monaco" ∷ "Montenegro" ∷ "ITU HQ" ∷ "Austria" ∷ "Croatia" ∷ "Malta"
    ∷ "Andorra" ∷ "Portugal" ∷ "Azores" ∷ "Fed. Rep. of Germany" ∷ "Bosnia-Herzegovina" ∷ "Spain"
    ∷ "Balearic Islands" ∷ "Ireland" ∷ "Moldova" ∷ "Estonia" ∷ "Belarus" ∷ "France" ∷ "England"
    ∷ "Isle of Man" ∷ "Northern Ireland" ∷ "Jersey" ∷ "Scotland" ∷ "Guernsey" ∷ "Wales" ∷ "Hungary"
    ∷ "Switzerland" ∷ "Liechtenstein" ∷ "Vatican City" ∷ "Italy" ∷ "Sardinia" ∷ "Svalbard"
    ∷ "Jan Mayen" ∷ "Norway" ∷ "Luxembourg" ∷ "Lithuania" ∷ "Bulgaria" ∷ "Finland" ∷ "Aland Islands"
    ∷ "Market Reef" ∷ "Czech Republic" ∷ "Slovak Republic" ∷ "Belgium" ∷ "Faroe Islands" ∷ "Denmark"
    ∷ "Netherlands" ∷ "European Russia" ∷ "Kaliningrad" ∷ "Slovenia" ∷ "Sweden" ∷ "Poland"
    ∷ "Greece" ∷ "Dodecanese" ∷ "Crete" ∷ "San Marino" ∷ "European Turkey" ∷ "Iceland" ∷ "Corsica"
    ∷ "Ukraine" ∷ "Latvia" ∷ "Romania" ∷ "Serbia" ∷ "Republic of Kosovo" ∷ "North Macedonia"
    ∷ "Albania" ∷ "Gibraltar" ∷ "Franz Josef Land" ∷ "Mount Athos" ∷ [])

-- `sacScandinavianCountries`
unfoldable pub sac_scandinavian_countries : List Text
sac_scandinavian_countries = map codes (
    "Norway" ∷ "Finland" ∷ "Sweden" ∷ "Iceland" ∷ "Denmark" ∷ "Svalbard" ∷ "Jan Mayen"
    ∷ "Aland Islands" ∷ "Market Reef" ∷ "Greenland" ∷ "Faroe Islands" ∷ [])
